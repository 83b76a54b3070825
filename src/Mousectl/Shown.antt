-- ===== src/Mousectl/Shown.antt =====
-- cmd/mousectl/main.go with internal/logging/logging.go: the client shows what a logger wrote.
use Prim.Native.Nat.{suc, zero}
use mouse.Logging.{set_file, write_all, Marshal, Sink, Stamped}
use mouse.Logging.Contents.{content-set_file, set_file-opened, all_lines, content-write_all, texts}
use mouse.Mousectl.Calls.{done, line, Flags, Remote}
use mouse.Mousectl.Output.{last_lines, logs_read, prepend, shown, shown_entry, split_lines}
use mouse.Mousectl.{logs_cmd}
use mouse.Mousectl.Logs.{last_lines-AreLast, hidden_and_kept, hidden_lines, AreLast, IsLine}
use mouse.Prelude.{
  text_eq_ne, ◌≢◌, Bool, append-nil, ap, append_assoc, arith, codes, drop, false, length, ltb, none,
  ok, refl, some, sym, text_eq, true, [], ◌++◌, ◌-◌, ◌∙◌, ◌∷◌, ◌≡◌, ◌&&◌, Bool-cases, inl, inr,
  List, Text, ℕ,
}
use mouse.Prelude.Int.{negsuc, pos, ℤ}
use mouse.Sessions.{content_of}
use mouse.Strings.{is_space, join, trim_right, trim_space}

-- A text in braces, on one line.
pub record IsBraced (s : Text) : Type 0 where
  pub inside : Text
  pub braces : s ≡ (b'{' ∷ inside) ++ b'}' ∷ []
  pub one_line : IsLine s

abbrev AllBraced : List Text → Type 0
AllBraced [] = Unit
AllBraced (s ∷ rest) = IsBraced s × AllBraced rest

-- The lines of a text that ends a line.
split-append : (s rest : Text) → IsLine s → split_lines (s ++ b'\n' ∷ rest) ≡ s ∷ split_lines rest
unfolding split_lines prepend
split-append [] rest h = refl
split-append (c ∷ s) rest h = ground (arith, split-append s rest)

split-line : (s : Text) → IsLine s → split_lines s ≡ s ∷ []
unfolding split_lines prepend
split-line [] h = refl
split-line (c ∷ s) h = ground (arith, split-line s)

split-join :
    (s : Text) (rest : List Text)
    → AllBraced (s ∷ rest)
    → split_lines (join (codes "\n") (s ∷ rest)) ≡ s ∷ rest
unfolding join
split-join s [] (b, bs) = split-line s b.one_line
split-join s (t ∷ rest) (b, bs) =
    ap split_lines (append_assoc s (codes "\n") (join (codes "\n") (t ∷ rest)))
    ∙ split-append s (join (codes "\n") (t ∷ rest)) b.one_line
    ∙ ap (◌∷◌ s) (split-join t rest bs)

-- A text that is in braces and goes on over some lines.
abbrev Ends : Text → Type 0
Ends s = (inside : Text) × (s ≡ (b'{' ∷ inside) ++ b'}' ∷ [])

regroup :
    (a c : Text)
    → ((a ++ b'}' ∷ []) ++ codes "\n") ++ (c ++ b'}' ∷ []) ≡ (a ++ b'}' ∷ b'\n' ∷ c) ++ b'}' ∷ []
regroup [] c = refl
regroup (x ∷ a) c = ap (◌∷◌ x) (regroup a c)

join-Ends :
    (s : Text) (rest : List Text) → AllBraced (s ∷ rest) → Ends (join (codes "\n") (s ∷ rest))
unfolding join
join-Ends s [] (b, bs) = (b.inside, b.braces)
join-Ends s (t ∷ rest) (b, bs) =
    let (inside, ends) = join-Ends t rest bs in
    (
      b.inside ++ b'}' ∷ b'\n' ∷ b'{' ∷ inside,
      ap (λ a. (a ++ codes "\n") ++ join (codes "\n") (t ∷ rest)) b.braces
          ∙ ap (λ more. (((b'{' ∷ b.inside) ++ b'}' ∷ []) ++ codes "\n") ++ more) ends
          ∙ regroup (b'{' ∷ b.inside) (b'{' ∷ inside),
    )

all_lines-join :
    (s : Text) (rest : List Text)
    → all_lines (s ∷ rest) ≡ join (codes "\n") (s ∷ rest) ++ codes "\n"
unfolding join
all_lines-join s [] = append-nil (s ++ codes "\n")
all_lines-join s (t ∷ rest) =
    ap (λ more. (s ++ codes "\n") ++ more) (all_lines-join t rest)
    ∙ sym (append_assoc (s ++ codes "\n") (join (codes "\n") (t ∷ rest)) (codes "\n"))

snoc_not_empty : (s : Text) (d : ℕ) → text_eq (s ++ d ∷ []) [] ≡ false
unfolding text_eq
snoc_not_empty [] d = refl
snoc_not_empty (c ∷ s) d = refl

trim_right-snoc :
    (p : ℕ → Bool) (s : Text) (d e : ℕ)
    → p d ≡ false
    → p e ≡ true
    → trim_right p (s ++ d ∷ e ∷ []) ≡ s ++ d ∷ []
unfolding trim_right text_eq
trim_right-snoc p [] d e kept cut = rw (kept, cut) refl
trim_right-snoc p (c ∷ s) d e kept cut = elim (Bool-cases (p c)) [
  | inl space ↦ rw (space, trim_right-snoc p s d e kept cut, snoc_not_empty s d) refl
  | inr other ↦ rw (other, trim_right-snoc p s d e kept cut) refl
]

-- The end of the last line is what trimming takes away.
trim_space-all_lines :
    (s : Text) (rest : List Text)
    → AllBraced (s ∷ rest)
    → trim_space (all_lines (s ∷ rest)) ≡ join (codes "\n") (s ∷ rest)
unfolding trim_space is_space
trim_space-all_lines s rest b =
    let (inside, ends) = join-Ends s rest b in
    rw (all_lines-join s rest, ends)
      (ap (trim_right is_space) (append_assoc (b'{' ∷ inside) (b'}' ∷ []) (codes "\n"))
        ∙ trim_right-snoc is_space (b'{' ∷ inside) b'}' b'\n' refl refl)

drop-texts :
    (text : Stamped → Text) (n : ℕ) (es : List Stamped)
    → drop n (texts text es) ≡ texts text (drop n es)
drop-texts text zero es = refl
drop-texts text (suc n) [] = refl
drop-texts text (suc n) (e ∷ es) = drop-texts text n es

length-texts : (text : Stamped → Text) (es : List Stamped) → length (texts text es) ≡ length es
length-texts text [] = refl
length-texts text (e ∷ es) = omega (arith, length-texts text es)

last_lines-texts :
    (text : Stamped → Text) (n : ℤ) (es : List Stamped)
    → last_lines n (texts text es) ≡ texts text (last_lines n es)
unfolding last_lines
last_lines-texts text (negsuc n) es = refl
last_lines-texts text (pos n) es =
    rw (length-texts text es) (elim (Bool-cases (ltb 0 n && ltb n (length es))) [
      | inl more ↦ rw more (drop-texts text (length es - n) es)
      | inr few ↦ rw few refl
    ])

-- How an entry is shown.
abbrev pub shown_line : Stamped → Text
shown_line e = line (
    e.timestamp
    ++ (codes " ["
        ++ (e.entry.level ++ (codes "] " ++ (e.entry.service ++ (codes ": " ++ e.entry.message))))))

abbrev pub shown_lines : List Stamped → Text
shown_lines [] = []
shown_lines (e ∷ es) = shown_line e ++ shown_lines es

module _ ⦃m : Marshal⦄ ⦃remote : Remote⦄ where
  -- The two sides of JSON: an entry is encoded as one line in braces, and the client decodes it.
  pub record IsCodec (text : Stamped → Text) : Type 0 where
    pub encoded : (e : Stamped) → m.encode e ≡ ok (text e)
    pub braced : (e : Stamped) → IsBraced (text e)
    pub decoded :
        (e : Stamped)
        → remote.decode_line (text e)
          ≡ some (record {
            timestamp = e.timestamp;
            level = e.entry.level;
            service = e.entry.service;
            message = e.entry.message;
          })

  texts-AllBraced :
      (text : Stamped → Text) → IsCodec text → (es : List Stamped) → AllBraced (texts text es)
  texts-AllBraced text c [] = tt
  texts-AllBraced text c (e ∷ es) = (c.braced e, texts-AllBraced text c es)

  shown-texts :
      (text : Stamped → Text)
      → IsCodec text
      → (es : List Stamped) → shown (texts text es) ≡ shown_lines es
  unfolding shown shown_entry
  shown-texts text c [] = refl
  shown-texts text c (e ∷ es) = rw (c.decoded e, shown-texts text c es) refl

  -- If the log file opens with nothing in it, JSON keeps an entry on one line in braces, and the
  -- writes, one at least, have no error: `mousectl logs` on that file exits with 0 and shows, line
  -- by line, the time, level, service and message of the last entries in the order in which they
  -- were written: of `n` of them, or of all if there are fewer or if `n` is not positive.
  pub logs_cmd-write_all :
      (text : Stamped → Text) (path : Text) (f : Flags) (e : Stamped) (es : List Stamped) (s : Sink)
      → IsCodec text
      → path ≢ []
      → content_of path s.files ≡ []
      → remote.read_file f.path
        ≡ ok (content_of path (write_all (e ∷ es) (set_file none none path s).1).files)
      → (hidden kept : List Stamped) × (hidden ++ kept ≡ e ∷ es)
        × AreLast f.lines hidden kept
        × (logs_cmd f ≡ done none (shown_lines kept))
  unfolding logs_cmd logs_read
  logs_cmd-write_all text path f e es s c given empty read =
      let named = text_eq_ne path [] given in
      let opened = (set_file none none path s).1 in
      let written =
        content-write_all text c.encoded path (e ∷ es) opened (set_file-opened path s named)
        ∙ ap (λ t. t ++ all_lines (texts text (e ∷ es))) (content-set_file path s named ∙ empty) in
      let b = texts-AllBraced text c (e ∷ es) in
      (
        hidden_lines f.lines (e ∷ es),
        last_lines f.lines (e ∷ es),
        hidden_and_kept f.lines (e ∷ es),
        last_lines-AreLast f.lines (e ∷ es),
        ap (logs_read f.lines) (read ∙ ap ok written)
            ∙ ap (λ t. done none (shown (last_lines f.lines (split_lines t))))
                (trim_space-all_lines (text e) (texts text es) b)
            ∙ ap (λ ls. done none (shown (last_lines f.lines ls)))
                (split-join (text e) (texts text es) b)
            ∙ ap (λ ls. done none (shown ls)) (last_lines-texts text f.lines (e ∷ es))
            ∙ ap (done none) (shown-texts text c (last_lines f.lines (e ∷ es))),
      )
