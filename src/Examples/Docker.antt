-- ===== src/Examples/Docker.antt =====
-- A reader of Docker's options that keeps to its rules.
use mouse.Sandbox.Args.{Settings, Reader}
use mouse.Prelude.{
  ◌++◌, some, arith, refl, [], true, false, if◌then◌else◌, ◌≡◌, codes, ◌∷◌, List, text_eq, Text,
}
use mouse.Strings.{has_prefix}

-- An option with a value takes the word behind it; any other word ends the options.
unfoldable read_options : Settings → List Text → Settings × List Text
unfolding text_eq
read_options s [] = (s, [])
read_options s (f ∷ []) =
    if text_eq f (codes "--rm")
    then (record s { removed = true }, [])
    else if text_eq f (codes "--read-only")
    then (record s { read_only = true }, [])
    else (s, f ∷ [])
read_options s (f ∷ v ∷ rest) =
    let removed = read_options (record s { removed = true }) (v ∷ rest) in
    let read_only = read_options (record s { read_only = true }) (v ∷ rest) in
    let network = read_options (record s { network = some v }) rest in
    let workdir = read_options (record s { workdir = some v }) rest in
    let volume = read_options (record s { volumes = s.volumes ++ v ∷ [] }) rest in
    let tmpfs = read_options (record s { tmpfs = s.tmpfs ++ v ∷ [] }) rest in
    if text_eq f (codes "--rm")
    then removed
    else if text_eq f (codes "--read-only")
    then read_only
    else if text_eq f (codes "--network")
    then network
    else if text_eq f (codes "-w")
    then workdir
    else if text_eq f (codes "-v")
    then volume
    else if text_eq f (codes "--tmpfs")
    then tmpfs
    else (s, f ∷ v ∷ rest)

read_rm :
    (s : Settings) (rest : List Text)
    → read_options s (codes "--rm" ∷ rest) ≡ read_options (record s { removed = true }) rest
unfolding read_options text_eq
read_rm s [] = refl
read_rm s (v ∷ rest) = refl

read_read_only :
    (s : Settings) (rest : List Text)
    → read_options s (codes "--read-only" ∷ rest)
      ≡ read_options (record s { read_only = true }) rest
unfolding read_options text_eq
read_read_only s [] = refl
read_read_only s (v ∷ rest) = refl

-- No option begins without a dash.
no_dash :
    (image : Text)
    → has_prefix image (codes "-") ≡ false
    → (text_eq image (codes "--rm") ≡ false)
      × (text_eq image (codes "--read-only") ≡ false)
      × (text_eq image (codes "--network") ≡ false)
      × (text_eq image (codes "-w") ≡ false)
      × (text_eq image (codes "-v") ≡ false)
      × (text_eq image (codes "--tmpfs") ≡ false)
unfolding text_eq has_prefix
no_dash [] h = (refl, refl, refl, refl, refl, refl)
no_dash (c ∷ cs) h = ground arith

read_word :
    (s : Settings) (image : Text) (rest : List Text)
    → has_prefix image (codes "-") ≡ false
    → read_options s (image ∷ rest) ≡ (s, image ∷ rest)
unfolding read_options
read_word s image [] h =
    let (rm, read_only, network, workdir, volume, tmpfs) = no_dash image h in
    rw (rm, read_only) refl
read_word s image (v ∷ rest) h =
    let (rm, read_only, network, workdir, volume, tmpfs) = no_dash image h in
    rw (rm, read_only, network, workdir, volume, tmpfs) refl

pub reader : Reader
unfolding read_options text_eq
reader = record {
  read = read_options;
  rm = read_rm;
  read_only = read_read_only;
  network = λ s v rest unset. refl;
  workdir = λ s v rest. refl;
  volume = λ s v rest. refl;
  tmpfs = λ s v rest. refl;
  word = read_word;
}
