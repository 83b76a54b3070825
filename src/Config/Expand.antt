-- ===== src/Config/Expand.antt =====
-- What the expansion of the workspace does to a value.
use mouse.Config.{token, replace_token, expand_workspace}
use mouse.Prelude.{[], ap, arith, ◌==◌, not, ◌∙◌, ◌∷◌, refl, all, true, ◌++◌, ◌≡◌, Bool, Text}

-- The text in front of the token has no dollar sign.
abbrev is_plain : Text → Bool
is_plain s = all (λ c. not (c == b'$')) s

replace_plain :
    (by s t : Text) → is_plain s ≡ true → replace_token by 0 (s ++ t) ≡ s ++ replace_token by 0 t
unfolding replace_token
replace_plain by [] t h = refl
replace_plain by (c ∷ s) t h = ground (arith, replace_plain by s t)

replace_here : (by t : Text) → replace_token by 0 (token ++ t) ≡ by ++ replace_token by 0 t
unfolding replace_token
replace_here by t = refl

-- The first token of a value, with no dollar sign before it, is replaced by the workspace, and what
-- follows it is expanded.
pub expand_workspace_lem :
    (before after workspace : Text)
    → is_plain before ≡ true
    → expand_workspace (before ++ (token ++ after)) workspace
      ≡ before ++ (workspace ++ expand_workspace after workspace)
unfolding expand_workspace
expand_workspace_lem before after workspace h =
    replace_plain workspace before (token ++ after) h
    ∙ ap (◌++◌ before) (replace_here workspace after)
