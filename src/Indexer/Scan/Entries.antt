-- ===== src/Indexer/Scan/Entries.antt =====
-- What indexing one file leaves in the table of index entries.
use mouse.Indexer.Scan.{Hashing}
use mouse.Prelude.{ap, false, true, ◌∙◌, some, [], Bool, ◌≡◌, Option, ◌≢◌, Text}
use mouse.Host.{World}
use mouse.Host.Rows.{Tables, IndexEntry}
use mouse.Sqlite.Keyed.{find}
use mouse.Prelude.Dict.{lookup}

abbrev pub entry_path : IndexEntry → Text
entry_path e = e.path

-- The entry of a path.
abbrev pub find_entry : Text → World → Option IndexEntry
find_entry path w = find entry_path path w.db.index_entries

-- The hash of a text is never empty: SHA-256 in hexadecimal has 64 digits.
abbrev pub HasDigits : Hashing → Type 0
HasDigits sha = (s : Text) → sha.hash_content s ≢ []

module _ ⦃sha : Hashing⦄ where
  -- The path names a file, and its entry carries the hash of the file's present text.
  pub record IsFresh (path : Text) (w : World) : Type 0 where
    pub content : Text
    pub stored : IndexEntry
    pub is_file : lookup path w.files ≡ some content
    pub is_entry : find_entry path w ≡ some stored
    pub hashed : stored.content_hash ≡ sha.hash_content content

  abbrev pub Outcome : Text → World → World → Bool → Type 0
  Outcome path w w' true = IsFresh path w'
  Outcome path w w' false = find_entry path w' ≡ find_entry path w

  -- No file changed, no other entry changed, and on success the path's entry is fresh.
  pub record IsIndexed (path : Text) (w w' : World) (done : Bool) : Type 0 where
    pub files : w'.files ≡ w.files
    pub others : (q : Text) → path ≢ q → find_entry q w' ≡ find_entry q w
    pub outcome : Outcome path w w' done

  pub IsFresh-frame :
      (path : Text) (a b : World)
      → b.files ≡ a.files
      → find_entry path b ≡ find_entry path a
      → IsFresh path a
      → IsFresh path b
  IsFresh-frame path a b files same f = record {
    content = f.content;
    stored = f.stored;
    is_file = ap (lookup path) files ∙ f.is_file;
    is_entry = same ∙ f.is_entry;
    hashed = f.hashed;
  }

  Outcome-from :
      (path : Text) (a b c : World) (done : Bool)
      → b.db ≡ a.db
      → Outcome path b c done
      → Outcome path a c done
  Outcome-from path a b c true same o = o
  Outcome-from path a b c false same o =
      o ∙ ap (λ (t : Tables). find entry_path path t.index_entries) same

  -- What comes before an attempt leaves the files and the tables alone.
  pub IsIndexed-from :
      (path : Text) (a b c : World) (done : Bool)
      → b.files ≡ a.files
      → b.db ≡ a.db
      → IsIndexed path b c done
      → IsIndexed path a c done
  IsIndexed-from path a b c done files same x = record {
    files = x.files ∙ files;
    others = λ q ne. x.others q ne ∙ ap (λ (t : Tables). find entry_path q t.index_entries) same;
    outcome = Outcome-from path a b c done same x.outcome;
  }

  -- What follows the attempt, too.
  pub IsIndexed-then :
      (path : Text) (a b c : World) (done : Bool)
      → IsIndexed path a b done
      → c.files ≡ b.files
      → c.db ≡ b.db
      → IsIndexed path a c done
  IsIndexed-then path a b c true x files same = record {
    files = files ∙ x.files;
    others = λ q ne. ap (λ (t : Tables). find entry_path q t.index_entries) same ∙ x.others q ne;
    outcome =
        IsFresh-frame path b c files
          (ap (λ (t : Tables). find entry_path path t.index_entries) same) x.outcome;
  }
  IsIndexed-then path a b c false x files same = record {
    files = files ∙ x.files;
    others = λ q ne. ap (λ (t : Tables). find entry_path q t.index_entries) same ∙ x.others q ne;
    outcome = ap (λ (t : Tables). find entry_path path t.index_entries) same ∙ x.outcome;
  }

  pub IsIndexed-same :
      (path : Text) (a b : World) → b.files ≡ a.files → b.db ≡ a.db → IsIndexed path a b false
  IsIndexed-same path a b files same = record {
    files = files;
    others = λ q ne. ap (λ (t : Tables). find entry_path q t.index_entries) same;
    outcome = ap (λ (t : Tables). find entry_path path t.index_entries) same;
  }
