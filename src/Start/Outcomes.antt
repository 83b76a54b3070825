-- ===== src/Start/Outcomes.antt =====
-- What the program has made sure of when it serves.
use mouse.Strings.{Unicode}
use mouse.Host.{World, Env}
use mouse.Start.{
  register_webhook, serve_configured, set_up_log, prepare, crashed, serving, checked, Started,
  announce, start, boot,
}
use mouse.Config.{ensure_runtime_dirs, Config, load, Outside}
use mouse.Prelude.{some, refl, true, err, codes, ok, if◌then◌else◌, false, ◌≡◌, Bool, Result, Text}
use mouse.Host.Action.{◌>>◌, continue, pure, wrapped, Action}
use mouse.Gateway.{panics, up, new_server, Boot}
use mouse.Config.Checks.{load-AsValid, AsValid, IsValid}
use mouse.Gateway.Routes.{new_server-AsPlanned, AsPlanned}
use mathlib.Core.Path.{subst}

module _ ⦃u : Unicode⦄ ⦃env : Env⦄ where
  abbrev pub Loaded : Outside → Text → World → Config → Type 0
  Loaded out path w cfg = ((load out path w).0 ≡ ok cfg) × IsValid cfg

  -- A check ends after the checks; a start ends in a server with the planned routes, or, if two of
  -- them have the same path or the mux refuses one, in a panic. The configuration is the one of the file, and valid.
  abbrev pub AsStarted : Outside → Text → Bool → World → Result Started → Type 0
  AsStarted out path check_only w (ok checked) =
      (check_only ≡ true) × ((cfg : Config) × Loaded out path w cfg)
  AsStarted out path check_only w (ok (serving s)) =
      (check_only ≡ false) × ((cfg : Config) × Loaded out path w cfg × AsPlanned cfg (ok (up s)))
  AsStarted out path check_only w (ok crashed) =
      (check_only ≡ false) × ((cfg : Config) × Loaded out path w cfg × AsPlanned cfg (ok panics))
  AsStarted out path check_only w (err e) = Unit

  through {ℓ} :
      {A : Type ℓ} (out : Outside) (path : Text) (check_only : Bool) (w : World) (r : Result A)
      (f : A → Action Started) (w₁ : World)
      → ((a : A) → r ≡ ok a → (w₂ : World) → AsStarted out path check_only w (f a w₂).0)
      → AsStarted out path check_only w (continue r f w₁).0
  through out path check_only w (ok a) f w₁ k = k a refl w₁
  through out path check_only w (err e) f w₁ k = tt

  wrapped_ok {ℓ} :
      {A : Type ℓ} (prefix : Text) (r : Result A) (a : A) → wrapped prefix r ≡ ok a → r ≡ ok a
  wrapped_ok prefix (ok b) a e = e
  wrapped_ok prefix (err b) a e = cc

  announced :
      (out : Outside) (path addr : Text) (w : World) (cfg : Config) (booted : Boot) (w₂ : World)
      → Loaded out path w cfg
      → AsPlanned cfg (ok booted)
      → AsStarted out path false w (announce addr booted w₂).0
  unfolding announce
  announced out path addr w cfg (up s) w₂ l h = (refl, (cfg, l, h))
  announced out path addr w cfg panics w₂ l h = (refl, (cfg, l, h))

  serve_configured-AsStarted :
      (out : Outside) (path addr : Text) (w : World) (cfg : Config) (w₁ : World)
      → Loaded out path w cfg
      → AsStarted out path false w (serve_configured cfg addr w₁).0
  unfolding serve_configured
  serve_configured-AsStarted out path addr w cfg w₁ l =
      let m = new_server cfg (some (codes "mouse")) w₁ in
      through out path false w (wrapped (codes "gateway error: ") m.0) (announce addr) m.1
        λ booted e w₂. announced out path addr w cfg booted w₂ l (
          subst (AsPlanned cfg) (wrapped_ok (codes "gateway error: ") m.0 booted e)
            (new_server-AsPlanned cfg (some (codes "mouse")) w₁))

  boot-AsStarted :
      (out : Outside) (path addr : Text) (w : World) (cfg : Config) (w₁ : World)
      → Loaded out path w cfg
      → AsStarted out path false w (boot cfg addr w₁).0
  unfolding boot
  boot-AsStarted out path addr w cfg w₁ l =
      let (r, w₂) = set_up_log cfg w₁ in
      through out path false w r (λ _. register_webhook cfg >> serve_configured cfg addr) w₂
        λ _ _ w₃.
          let (r', w₄) = register_webhook cfg w₃ in
          through out path false w r' (λ _. serve_configured cfg addr) w₄
            λ _ _ w₅. serve_configured-AsStarted out path addr w cfg w₅ l

  ended :
      (out : Outside) (path addr : Text) (check_only : Bool) (w : World) (cfg : Config) (w₁ : World)
      → Loaded out path w cfg
      → AsStarted out path check_only w ((if check_only then pure checked else boot cfg addr) w₁).0
  ended out path addr true w cfg w₁ l = (refl, (cfg, l))
  ended out path addr false w cfg w₁ l = boot-AsStarted out path addr w cfg w₁ l

  prepare-AsStarted :
      (out : Outside) (path addr : Text) (check_only : Bool) (w : World) (cfg : Config) (w₁ : World)
      → Loaded out path w cfg
      → AsStarted out path check_only w (prepare addr check_only cfg w₁).0
  unfolding prepare
  prepare-AsStarted out path addr check_only w cfg w₁ l =
      let (r, w₂) = ensure_runtime_dirs cfg w₁ in
      through out path check_only w (wrapped (codes "runtime dirs error: ") r)
        (λ _. if check_only then pure checked else boot cfg addr) w₂
        λ _ _ w₃. ended out path addr check_only w cfg w₃ l

  -- Whatever the file of the configuration holds and whatever fails: if the program serves, it was
  -- not only asked to check, the configuration is the loaded one and valid, and the server has the
  -- planned routes with no path twice. If a registration panics, two planned routes have the same
  -- path, or the mux refuses the path of one of them where it has those in front of it, of a
  -- configuration that is valid all the same. If only a check was asked for and it succeeds, the
  -- configuration is valid.
  pub start-AsStarted :
      (out : Outside) (path addr : Text) (check_only : Bool) (w : World)
      → AsStarted out path check_only w (start out path addr check_only w).0
  unfolding start
  start-AsStarted out path addr check_only w =
      let (r, w₁) = load out path w in
      through out path check_only w (wrapped (codes "config error: ") r) (prepare addr check_only)
        w₁
        λ cfg e w₂. prepare-AsStarted out path addr check_only w cfg w₂ (
          wrapped_ok (codes "config error: ") r cfg e,
          subst AsValid (wrapped_ok (codes "config error: ") r cfg e) (load-AsValid out path w),
        )
