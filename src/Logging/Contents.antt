-- ===== src/Logging/Contents.antt =====
-- What is in the log file after some writes.
use mouse.Logging.{
  make_dir, open_log, set_file, write, write_all, write_encoded, write_file, Marshal, Sink, Stamped,
}
use mouse.Prelude.{
  refl, false, text_eq, ok, some, none, [], ◌++◌, ◌∙◌, ◌∷◌, ◌≡◌, append_assoc, append-nil, ap, sym,
  codes, List, Text,
}
use mouse.Sessions.{content_of}
use mouse.Sessions.Files.{content_of-create_file, content_of-append_file}

-- The lines that a list of texts makes.
abbrev pub all_lines : List Text → Text
all_lines [] = []
all_lines (s ∷ rest) = (s ++ codes "\n") ++ all_lines rest

abbrev pub texts : (Stamped → Text) → List Stamped → List Text
texts text [] = []
texts text (e ∷ es) = text e ∷ texts text es

module _ ⦃m : Marshal⦄ (text : Stamped → Text)
    (encoded : (e : Stamped) → m.encode e ≡ ok (text e)) where
  write-opened :
      (path : Text) (e : Stamped) (s : Sink)
      → s.opened ≡ some path
      → (write none e s).opened ≡ some path
  unfolding write write_encoded
  write-opened path e s h = rw (encoded e) h

  content-write :
      (path : Text) (e : Stamped) (s : Sink)
      → s.opened ≡ some path
      → content_of path (write none e s).files ≡ content_of path s.files ++ (text e ++ codes "\n")
  unfolding write write_encoded write_file
  content-write path e s h =
      rw (encoded e, h) (content_of-append_file path s.files (text e ++ codes "\n"))

  pub content-write_all :
      (path : Text) (es : List Stamped) (s : Sink)
      → s.opened ≡ some path
      → content_of path (write_all es s).files
        ≡ content_of path s.files ++ all_lines (texts text es)
  unfolding write_all
  content-write_all path [] s h = sym (append-nil _)
  content-write_all path (e ∷ es) s h =
      content-write_all path es (write none e s) (write-opened path e s h)
      ∙ ap (λ c. c ++ all_lines (texts text es)) (content-write path e s h)
      ∙ append_assoc (content_of path s.files) _ _

module _ (path : Text) (s : Sink) (named : text_eq path [] ≡ false) where
  pub set_file-opened : (set_file none none path s).1.opened ≡ some path
  unfolding set_file open_log make_dir
  set_file-opened = rw named refl

  pub content-set_file :
      content_of path (set_file none none path s).1.files ≡ content_of path s.files
  unfolding set_file open_log make_dir
  content-set_file = rw named (content_of-create_file path s.files)
