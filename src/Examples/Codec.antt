-- ===== src/Examples/Codec.antt =====
-- A small stand-in for JSON, which keeps every text: the tests of the client use it.
use mouse.Logging.{Stamped}
use mouse.Mousectl.Calls.{LogLine, ResultResponse}
use mouse.Mousectl.Logs.{IsLine}
use mouse.Mousectl.Runs.{result_of}
use mouse.Mousectl.Shown.{IsBraced}
use mouse.Prelude.{
  append_assoc, ap, arith, false, if◌then◌else◌, map, none, refl, some, true, [], ◌++◌, ◌+◌, ◌-◌,
  ◌==◌, ◌∙◌, ◌∷◌, ◌≡◌, Bool, List, Option, Text, ℕ,
}
use mouse.Prelude.Int.{negsuc, pos, ℤ}
use mouse.Tools.Handler.{Response}

-- Fields in braces, each behind with a comma, their characters moved out of the way.
abbrev inner : List Text → Text
inner [] = []
inner (f ∷ fs) = map (λ c. c + 126) f ++ b',' ∷ inner fs

abbrev pub write_fields : List Text → Text
write_fields fs = (b'{' ∷ inner fs) ++ b'}' ∷ []

abbrev put : ℕ → List Text → List Text
put c [] = (c ∷ []) ∷ []
put c (f ∷ fs) = (c ∷ f) ∷ fs

abbrev read_inner : Text → List Text
read_inner [] = []
read_inner (c ∷ s) =
    let rest = read_inner s in
    if c == b'}' then [] else if c == b',' then [] ∷ rest else put (c - 126) rest

abbrev pub read_fields : Text → List Text
read_fields [] = []
read_fields (c ∷ s) = read_inner s

read_field :
    (f rest : Text) → read_inner (map (λ c. c + 126) f ++ b',' ∷ rest) ≡ f ∷ read_inner rest
read_field [] rest = refl
read_field (c ∷ f) rest =
    let brace : ((c + 126) == b'}') ≡ false = ground arith in
    let comma : ((c + 126) == b',') ≡ false = ground arith in
    let back : c + 126 - 126 ≡ c = omega arith in rw (brace, comma, back, read_field f rest) refl

read_inner-inner : (fs : List Text) → read_inner (inner fs ++ b'}' ∷ []) ≡ fs
read_inner-inner [] = refl
read_inner-inner (f ∷ fs) =
    ap read_inner (append_assoc (map (λ c. c + 126) f) (b',' ∷ inner fs) (b'}' ∷ []))
    ∙ read_field f (inner fs ++ b'}' ∷ [])
    ∙ ap (◌∷◌ f) (read_inner-inner fs)

pub read-write : (fs : List Text) → read_fields (write_fields fs) ≡ fs
read-write fs = read_inner-inner fs

all-append : (s t : Text) → IsLine s → IsLine t → IsLine (s ++ t)
all-append [] t h k = k
all-append (c ∷ s) t h k = ground (arith, all-append s t)

moved-IsLine : (s : Text) → IsLine (map (λ c. c + 126) s)
moved-IsLine [] = refl
moved-IsLine (c ∷ s) = ground (arith, moved-IsLine s)

inner-IsLine : (fs : List Text) → IsLine (inner fs)
inner-IsLine [] = refl
inner-IsLine (f ∷ fs) =
    all-append (map (λ c. c + 126) f) (b',' ∷ inner fs) (moved-IsLine f) (inner-IsLine fs)

pub write_fields-IsBraced : (fs : List Text) → IsBraced (write_fields fs)
write_fields-IsBraced fs = record {
  inside = inner fs;
  braces = refl;
  one_line = all-append (inner fs) (b'}' ∷ []) (inner-IsLine fs) refl;
}

-- An entry of the log.
abbrev pub entry_text : Stamped → Text
entry_text e = write_fields (e.timestamp ∷ e.entry.level ∷ e.entry.service ∷ e.entry.message ∷ [])

abbrev line_of : List Text → Option LogLine
line_of (t ∷ l ∷ s ∷ m ∷ []) = some (record { timestamp = t; level = l; service = s; message = m })
line_of fs = none

abbrev pub read_line : Text → Option LogLine
read_line s = line_of (read_fields s)

-- The payload of the tools' handler.
abbrev flag : Bool → Text
flag true = 1 ∷ []
flag false = []

abbrev unflag : Text → Bool
unflag [] = false
unflag (c ∷ s) = true

abbrev number : ℤ → Text
number (pos n) = n ∷ []
number (negsuc n) = n ∷ 0 ∷ []

abbrev unnumber : Text → ℤ
unnumber [] = pos 0
unnumber (n ∷ []) = pos n
unnumber (n ∷ c ∷ s) = negsuc n

abbrev pub payload_text : Response → Text
payload_text p =
    write_fields (
      flag p.is_ok ∷ p.stdout ∷ p.stderr ∷ number p.exit_code ∷ (p.duration_ms ∷ []) ∷ p.error ∷ [])

abbrev nothing : ResultResponse
nothing = record {
  is_ok = false;
  stdout = [];
  stderr = [];
  exit_code = pos 0;
  duration_ms = pos 0;
  error = [];
}

abbrev result_fields : List Text → ResultResponse
result_fields (o ∷ out ∷ errs ∷ code ∷ d ∷ e ∷ []) = record {
  is_ok = unflag o;
  stdout = out;
  stderr = errs;
  exit_code = unnumber code;
  duration_ms = unnumber d;
  error = e;
}
result_fields fs = nothing

abbrev pub read_payload : Text → ResultResponse
read_payload s = result_fields (read_fields s)

unflag-flag : (b : Bool) → unflag (flag b) ≡ b
unflag-flag true = refl
unflag-flag false = refl

unnumber-number : (z : ℤ) → unnumber (number z) ≡ z
unnumber-number (pos n) = refl
unnumber-number (negsuc n) = refl

pub read_payload-text : (p : Response) → read_payload (payload_text p) ≡ result_of p
read_payload-text p =
    ap result_fields (
      read-write (
        flag p.is_ok
        ∷ p.stdout
        ∷ p.stderr
        ∷ number p.exit_code
        ∷ (p.duration_ms ∷ [])
        ∷ p.error
        ∷ []))
    ∙ rw (unflag-flag p.is_ok, unnumber-number p.exit_code) refl

pub read_line-text :
    (e : Stamped)
    → read_line (entry_text e)
      ≡ some (record {
        timestamp = e.timestamp;
        level = e.entry.level;
        service = e.entry.service;
        message = e.entry.message;
      })
read_line-text e =
    ap line_of (read-write (e.timestamp ∷ e.entry.level ∷ e.entry.service ∷ e.entry.message ∷ []))
