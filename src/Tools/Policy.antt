-- ===== src/Tools/Policy.antt =====
-- internal/tools/policy.go
pub mod Laws
use mouse.Prelude.{
  Bool, true, false, Option, none, some, List, [], ◌∷◌, Text, text_eq, if◌then◌else◌, any, is_empty,
}
use mouse.Strings.{Unicode, to_lower, trim_space}

-- A Go set of strings is the list of its elements; repetitions do not matter.
pub record Policy : Type 0 where
  pub allow : List Text
  pub deny : List Text
  pub allow_all : Bool

-- `_, ok := set[name]`
abbrev pub member : Text → List Text → Bool
member name set = any (λ item. text_eq item name) set

module _ ⦃u : Unicode⦄ where
  -- `normalize`
  unfoldable pub normalize : Text → Text
  normalize value = to_lower (trim_space value)

  -- The two loops of `NewPolicy`.
  unfoldable pub add_all : List Text → List Text → List Text
  unfolding normalize text_eq
  add_all set [] = set
  add_all set (item ∷ items) =
      let normal = normalize item in add_all (if text_eq normal [] then set else normal ∷ set) items

  -- `NewPolicy`
  unfoldable pub new_policy : List Text → List Text → Policy
  unfolding add_all
  new_policy allow_list deny_list =
      let allow = add_all [] allow_list in
      record { allow = allow; deny = add_all [] deny_list; allow_all = is_empty allow }

  -- `Allowed`; `none` is a nil policy
  unfoldable pub allowed : Option Policy → Text → Bool
  unfolding normalize text_eq
  allowed none tool = false
  allowed (some p) tool =
      let name = normalize tool in
      if text_eq name []
      then false
      else if member name p.deny
      then false
      else if p.allow_all
      then true
      else member name p.allow
