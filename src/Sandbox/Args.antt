-- ===== src/Sandbox/Args.antt =====
-- The command line read back: what `docker run` is told.
use mouse.Prelude.{
  ◌≡◌, refl, ap, ◌∙◌, inl, inr, Bool, true, false, Option, none, some, List, [], ◌∷◌, ◌++◌, map,
  Text, codes, text_eq, if◌then◌else◌, Bool-cases, filter, append_assoc, append-nil,
}
use mouse.Strings.{trim_space, has_prefix}
use mouse.Sandbox.{
  DockerConfig, flag_each, network_of, workdir_args, docker_options, build_docker_args,
}

-- What the options of `docker run` set.
pub record Settings : Type 0 where
  pub removed : Bool
  pub read_only : Bool
  pub network : Option Text
  pub workdir : Option Text
  pub volumes : List Text
  pub tmpfs : List Text

-- How Docker reads the options in front of the image, as its manual has it: each of these options
-- makes its setting, with the word behind it as the value where it takes one, and the reading goes
-- on behind it. A word without a dash ends the options.
pub record Reader : Type 0 where
  pub read : Settings → List Text → Settings × List Text
  pub rm :
      (s : Settings) (rest : List Text)
      → read s (codes "--rm" ∷ rest) ≡ read (record s { removed = true }) rest
  pub read_only :
      (s : Settings) (rest : List Text)
      → read s (codes "--read-only" ∷ rest) ≡ read (record s { read_only = true }) rest
  pub network :
      (s : Settings) (v : Text) (rest : List Text)
      → s.network ≡ none
      → read s (codes "--network" ∷ v ∷ rest) ≡ read (record s { network = some v }) rest
  pub workdir :
      (s : Settings) (v : Text) (rest : List Text)
      → read s (codes "-w" ∷ v ∷ rest) ≡ read (record s { workdir = some v }) rest
  pub volume :
      (s : Settings) (v : Text) (rest : List Text)
      → read s (codes "-v" ∷ v ∷ rest) ≡ read (record s { volumes = s.volumes ++ v ∷ [] }) rest
  pub tmpfs :
      (s : Settings) (v : Text) (rest : List Text)
      → read s (codes "--tmpfs" ∷ v ∷ rest) ≡ read (record s { tmpfs = s.tmpfs ++ v ∷ [] }) rest
  pub word :
      (s : Settings) (image : Text) (rest : List Text)
      → has_prefix image (codes "-") ≡ false
      → read s (image ∷ rest) ≡ (s, image ∷ rest)

-- Before any option: nothing is set.
abbrev pub unset : Settings
unset = record {
  removed = false;
  read_only = false;
  network = none;
  workdir = none;
  volumes = [];
  tmpfs = [];
}

-- The items that are not blank, without the space around them.
abbrev pub trimmed_items : List Text → List Text
trimmed_items items = filter (λ t. if text_eq t [] then false else true) (map trim_space items)

abbrev pub if_any : Text → Option Text
if_any t = if text_eq t [] then none else some t

-- The network of the configuration, or "none" if it names none.
abbrev pub network_asked : Text → Text
network_asked network = if text_eq (trim_space network) [] then codes "none" else trim_space network

-- The settings that the configuration asks for.
abbrev pub asked : DockerConfig → Settings
asked cfg = record {
  removed = true;
  read_only = cfg.read_only_root;
  network = some (network_asked cfg.network);
  workdir = if_any (trim_space cfg.workdir);
  volumes = trimmed_items cfg.binds;
  tmpfs = trimmed_items cfg.tmpfs;
}

module _ (docker : Reader) where
  read_volumes :
      (items : List Text) (s : Settings) (rest : List Text)
      → docker.read s (flag_each (codes "-v") items ++ rest)
        ≡ docker.read (record s { volumes = s.volumes ++ trimmed_items items }) rest
  unfolding flag_each
  read_volumes [] s rest = rw append-nil
  read_volumes (item ∷ items) s rest = elim (Bool-cases (text_eq (trim_space item) [])) [
    | inl blank ↦ rw blank (read_volumes items s rest)
    | inr full ↦ rw full (docker.volume s _ _ ∙ read_volumes items _ rest ∙ simp append_assoc)
  ]

  read_tmpfs :
      (items : List Text) (s : Settings) (rest : List Text)
      → docker.read s (flag_each (codes "--tmpfs") items ++ rest)
        ≡ docker.read (record s { tmpfs = s.tmpfs ++ trimmed_items items }) rest
  unfolding flag_each
  read_tmpfs [] s rest = rw append-nil
  read_tmpfs (item ∷ items) s rest = elim (Bool-cases (text_eq (trim_space item) [])) [
    | inl blank ↦ rw blank (read_tmpfs items s rest)
    | inr full ↦ rw full (docker.tmpfs s _ _ ∙ read_tmpfs items _ rest ∙ simp append_assoc)
  ]

  read_front :
      (b : Bool) (network : Text) (rest : List Text)
      → docker.read unset (
          codes "--rm"
          ∷ ((if b then codes "--read-only" ∷ [] else []) ++ (codes "--network" ∷ network ∷ rest)))
        ≡ docker.read (record unset { removed = true; read_only = b; network = some network }) rest
  read_front true network rest =
      docker.rm unset _ ∙ docker.read_only _ _ ∙ docker.network _ network rest refl
  read_front false network rest = docker.rm unset _ ∙ docker.network _ network rest refl

  read_workdir :
      (s : Settings) (workdir : Text) (rest : List Text)
      → s.workdir ≡ none
      → docker.read s (workdir_args workdir ++ rest)
        ≡ docker.read (record s { workdir = if_any (trim_space workdir) }) rest
  unfolding workdir_args
  read_workdir s workdir rest h = elim (Bool-cases (text_eq (trim_space workdir) [])) [
    | inl blank ↦ rw (blank, ← h) refl
    | inr full ↦ rw full (docker.workdir s _ rest)
  ]

  -- If the image's name does not begin with a dash, a reader that keeps to Docker's rules for its
  -- options reads the command line as the configuration asks: the options it sets, with the network
  -- "none" where no other is named, and behind them the image and the whole command, whatever words
  -- that has.
  pub read-build_docker_args :
      (cfg : DockerConfig) (command : List Text)
      → has_prefix cfg.image (codes "-") ≡ false
      → (words : List Text) × (build_docker_args cfg command ≡ codes "run" ∷ words)
        × (docker.read unset words ≡ (asked cfg, cfg.image ∷ command))
  unfolding build_docker_args docker_options
  read-build_docker_args cfg command h =
      let last = cfg.image ∷ command in
      let tmpfs = flag_each (codes "--tmpfs") cfg.tmpfs in
      let volumes = flag_each (codes "-v") cfg.binds in
      let workdir = workdir_args cfg.workdir in
      (
        _,
        refl,
        ap (λ ws. docker.read unset (codes "--rm" ∷ ws))
              (append_assoc (if cfg.read_only_root then codes "--read-only" ∷ [] else []) _ last)
            ∙ read_front cfg.read_only_root (network_of cfg.network)
                ((workdir ++ (volumes ++ tmpfs)) ++ last)
            ∙ rw (append_assoc workdir (volumes ++ tmpfs) last, append_assoc volumes tmpfs last)
                (read_workdir _ cfg.workdir _ refl
                  ∙ read_volumes cfg.binds _ _
                  ∙ read_tmpfs cfg.tmpfs _ _
                  ∙ docker.word _ cfg.image command h),
      )
