-- ===== src/Indexer/Scan/Statements.antt =====
-- What the statements on the table of index entries do to one entry.
use mouse.Indexer.Scan.Entries.{entry_path, find_entry}
use mouse.Sqlite.Index.{upsert_index_entry, get_index_hash, write_index_entry}
use mouse.Prelude.{
  refl, ◌+◌, Option-cases, inl, Bool-cases, arith, inr, text_eq, ◌⊎◌, err, none, ok, ◌∙◌,
  if◌then◌else◌, some, [], Result, ◌≡◌, Option, Text,
}
use mouse.Host.{World, Env}
use mouse.Host.Rows.{Tables, IndexEntry}
use mouse.Sqlite.Base.{open_db, nil_db, Db}
use mouse.Sqlite.Keyed.{find-upsert, find}
use mouse.Prelude.Dict.{lookup}
use mouse.Strings.{is_blank}

abbrev pub merged_entry : IndexEntry → Option IndexEntry → IndexEntry
merged_entry e none = e
merged_entry e (some i) = record i {
  content = e.content;
  tokens = e.tokens;
  content_hash = e.content_hash;
  updated_at = e.updated_at;
}

pub merged_hash :
    (e : IndexEntry) (o : Option IndexEntry) → (merged_entry e o).content_hash ≡ e.content_hash
merged_hash e none = refl
merged_hash e (some i) = refl

pub find-write_index_entry :
    (e : IndexEntry) (q : Text) (t : Tables)
    → find entry_path q (write_index_entry e t).index_entries ≡ (
        if text_eq e.path q
        then some (merged_entry e (find entry_path e.path t.index_entries))
        else find entry_path q t.index_entries)
unfolding write_index_entry
find-write_index_entry e q t =
    find-upsert entry_path e (λ i. merged_entry e (some i)) (λ i h. h) q t.index_entries
    ∙ ground arith

module _ ⦃env : Env⦄ where
  -- A write changes the entries as its statement says, or fails and changes nothing.
  pub upsert_cases :
      (d : Db) (path content tokens hash : Text) (w : World)
      → let (r, w') = upsert_index_entry d path content tokens hash w in
        (w'.files ≡ w.files)
        × (((r ≡ ok tt)
              × ((e : IndexEntry) × (e.path ≡ path)
                  × (e.content ≡ content)
                  × (e.tokens ≡ tokens)
                  × (e.content_hash ≡ hash)
                  × (w'.db ≡ write_index_entry e w.db)))
            ⊎ ((x : Text) × (r ≡ err x) × (w'.db ≡ w.db)))
  unfolding upsert_index_entry
  upsert_cases nil_db path content tokens hash w = (refl, inr (_, refl, refl))
  upsert_cases open_db path content tokens hash w = elim (Bool-cases (is_blank path)) [
    | inl blank ↦ rw blank (refl, inr (_, refl, refl))
    | inr named ↦ elim (Option-cases (env.fault (w.calls + 1))) [
      | inl fine ↦
          rw (named, fine)
            (
              refl,
              inl (
                refl,
                (
                  record {
                    path = path;
                    content = content;
                    tokens = tokens;
                    content_hash = hash;
                    updated_at = _;
                  },
                  refl,
                  refl,
                  refl,
                  refl,
                  refl,
                ),
              ),
            )
      | inr (e, failed) ↦ rw (named, failed) (refl, inr (_, refl, refl))
    ]
  ]

  abbrev pub hash_of : Option IndexEntry → Text
  hash_of none = []
  hash_of (some e) = e.content_hash

  abbrev pub AsHash : Text → World → Result Text → Type 0
  AsHash path w (ok h) = h ≡ hash_of (find_entry path w)
  AsHash path w (err e) = Unit

  pub get_index_hash_lem :
      (d : Db) (path : Text) (w : World)
      → let (r, w') = get_index_hash d path w in
        (w'.files ≡ w.files) × (w'.db ≡ w.db) × AsHash path w r
  unfolding get_index_hash
  get_index_hash_lem nil_db path w = (refl, refl, tt)
  get_index_hash_lem open_db path w = ground arith

  abbrev pub AsRead : Text → World → Result Text → Type 0
  AsRead path w (ok content) = lookup path w.files ≡ some content
  AsRead path w (err e) = Unit
