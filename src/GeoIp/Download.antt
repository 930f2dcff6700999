-- ===== src/GeoIp/Download.antt =====
-- pkg/geoip/geoip.go, autoDownloadMMDB: a download that is alone leaves no half file in the place
-- of the database.
use go_proxy.Base.{
  ℕ, zero, suc, ◌≡◌, ◌∙◌, sym, ◌⊎◌, inl, inr, refl, Bool, true, false, Option, none, some, List, [],
  ◌∷◌, ◌++◌, append-nil_right, append_assoc_right,
}
use mathlib.Core.Path.{subst}
use go_proxy.Base.Text.{Text, text_eq}
use go_proxy.Base.Assoc.{lookup, insert, lookup-insert, lookup-insert_self, lookup-erase}
use go_proxy.GeoIp.Database.{
  Database, Disk, Download, no_answer, copied, target_file, temporary_file, read_from, renamed,
  open_path, reopened, steps_at_end, copy_steps, append_temporary, file_step, run_steps,
  auto_download_mmdb,
}

abbrev pub joined : List Text → Text
joined [] = []
joined (piece ∷ pieces) = piece ++ joined pieces

-- What a download may have done to the files and to the reader.
pub record IsAtomic (open_database : Text → Option Database) (dl : Download) (d t : Disk)
    : Type 0 where
  pub target :
      (lookup target_file t.files ≡ lookup target_file d.files)
      ⊎ ((pieces : List Text) × ((dl ≡ copied pieces true)
            × (lookup target_file t.files ≡ some (joined pieces))))
  pub others :
      (path : Text)
      → text_eq target_file path ≡ false
      → text_eq temporary_file path ≡ false
      → lookup path t.files ≡ lookup path d.files
  pub reader : (t.reader ≡ d.reader) ⊎ (t.reader ≡ open_path open_database t.files target_file)

-- The disk while the body is copied, of which `body` has arrived.
record IsCopying (d : Disk) (body : Text) (t : Disk) : Type 0 where
  temporary : lookup temporary_file t.files ≡ some body
  target : lookup target_file t.files ≡ lookup target_file d.files
  others :
      (path : Text)
      → text_eq target_file path ≡ false
      → text_eq temporary_file path ≡ false
      → lookup path t.files ≡ lookup path d.files
  reader : t.reader ≡ d.reader

written-IsCopying :
    (d : Disk) (before body : Text) (t : Disk)
    → IsCopying d before t
    → IsCopying d body (record t { files = insert temporary_file body t.files })
unfolding text_eq
written-IsCopying d before body t c = record {
  temporary = lookup-insert_self temporary_file body t.files;
  target = lookup-insert temporary_file target_file body t.files ∙ c.target;
  others = λ path a b. lookup-insert temporary_file path body t.files ∙ rw b (c.others path a b);
  reader = c.reader;
}

read_from_files : (o : Option Database) (d : Disk) → (read_from o d).files ≡ d.files
read_from_files none d = refl
read_from_files (some db) d = refl

read_from_reader :
    (o : Option Database) (d : Disk)
    → ((read_from o d).reader ≡ d.reader) ⊎ ((read_from o d).reader ≡ o)
read_from_reader none d = inl refl
read_from_reader (some db) d = inr refl

module _ (o : Text → Option Database) (dl : Download) (d : Disk) where
  untouched : IsAtomic o dl d d
  untouched = record { target = inl refl; others = λ path a b. refl; reader = inl refl }

  copying-IsAtomic : (body : Text) (t : Disk) → IsCopying d body t → IsAtomic o dl d t
  copying-IsAtomic body t c = record {
    target = inl c.target;
    others = c.others;
    reader = inl c.reader;
  }

  renamed-IsAtomic :
      (pieces : List Text) (t : Disk)
      → dl ≡ copied pieces true
      → IsCopying d (joined pieces) t
      → IsAtomic o dl d (record t { files = renamed (some (joined pieces)) t.files })
  unfolding text_eq
  renamed-IsAtomic pieces t e c =
      let body = joined pieces in
      let moved = insert target_file body t.files in
      record {
        target = inr (
          pieces,
          (
            e,
            lookup-erase temporary_file target_file moved
                ∙ lookup-insert_self target_file body t.files,
          ),
        );
        others = λ path a b.
            lookup-erase temporary_file path moved
            ∙ rw b (lookup-insert target_file path body t.files ∙ rw a (c.others path a b));
        reader = inl c.reader;
      }

  reopened-IsAtomic :
      (t : Disk) → t.reader ≡ d.reader → IsAtomic o dl d t → IsAtomic o dl d (reopened o t)
  reopened-IsAtomic t r a =
      let kept = read_from_files (open_path o t.files target_file) t in
      record {
        target = rw kept a.target;
        others = λ path x y. rw kept (a.others path x y);
        reader = rw kept (elim (read_from_reader (open_path o t.files target_file) t) [
          | inl e ↦ inl (e ∙ r)
          | inr e ↦ inr e
        ]);
      }

  -- The steps after the copy of the whole body.
  ended-IsAtomic :
      (complete renames : Bool) (n : ℕ) (pieces : List Text) (t : Disk)
      → dl ≡ copied pieces complete
      → IsCopying d (joined pieces) t
      → IsAtomic o dl d (run_steps o (steps_at_end complete renames) n t)
  unfolding run_steps file_step
  ended-IsAtomic false renames n pieces t e c = copying-IsAtomic _ t c
  ended-IsAtomic true false zero pieces t e c = copying-IsAtomic _ t c
  ended-IsAtomic true false (suc n) pieces t e c =
      reopened-IsAtomic t c.reader (copying-IsAtomic _ t c)
  ended-IsAtomic true true zero pieces t e c = copying-IsAtomic _ t c
  ended-IsAtomic true true (suc zero) pieces t e c = rw c.temporary (renamed-IsAtomic pieces t e c)
  ended-IsAtomic true true (suc (suc n)) pieces t e c = rw c.temporary (
      reopened-IsAtomic (record t { files = renamed (some (joined pieces)) t.files }) c.reader
        (renamed-IsAtomic pieces t e c))

  piece_step :
      (x body : Text) (t : Disk)
      → lookup temporary_file t.files ≡ some body
      → file_step o (append_temporary x) t
        ≡ record t { files = insert temporary_file (body ++ x) t.files }
  unfolding file_step
  piece_step x body t e = rw e refl

  -- The copy of the pieces that have not arrived, and then the other steps.
  copied-IsAtomic :
      (complete renames : Bool) (pieces rest : List Text) (body : Text) (n : ℕ) (t : Disk)
      → dl ≡ copied pieces complete
      → joined pieces ≡ body ++ joined rest
      → IsCopying d body t
      → IsAtomic o dl d (run_steps o (copy_steps rest (steps_at_end complete renames)) n t)
  unfolding run_steps file_step
  copied-IsAtomic complete renames pieces [] body n t e same c =
      ended-IsAtomic complete renames n pieces t e
        (subst (λ b. IsCopying d b t) (sym (same ∙ append-nil_right body)) c)
  copied-IsAtomic complete renames pieces (x ∷ rest) body zero t e same c =
      copying-IsAtomic body t c
  copied-IsAtomic complete renames pieces (x ∷ rest) body (suc n) t e same c =
      let more = copy_steps rest (steps_at_end complete renames) in
      subst (λ u. IsAtomic o dl d (run_steps o more n u)) (sym (piece_step x body t c.temporary))
        (copied-IsAtomic complete renames pieces rest (body ++ x) n
          (record t { files = insert temporary_file (body ++ x) t.files }) e
          (same ∙ sym (append_assoc_right body x (joined rest)))
          (written-IsCopying d body (body ++ x) t c))

created-IsCopying :
    (d : Disk) → IsCopying d [] (record d { files = insert temporary_file [] d.files })
unfolding text_eq
created-IsCopying d = record {
  temporary = lookup-insert_self temporary_file [] d.files;
  target = lookup-insert temporary_file target_file [] d.files;
  others = λ path a b. lookup-insert temporary_file path [] d.files ∙ rw b refl;
  reader = refl;
}

-- Whatever becomes of a download of the offline database, and wherever the process is killed in
-- it, as long as no other download runs at the same time: the file that the resolver opens holds
-- what it held before, or the whole body of an answer that was copied without an error, never a
-- part of it; no file but this and the temporary one is touched; and the database in use is the
-- old one or that of the file.
pub auto_download_mmdb-IsAtomic :
    (open_database : Text → Option Database) (dl : Download) (creates renames : Bool) (n : ℕ)
    (d : Disk)
    → IsAtomic open_database dl d (auto_download_mmdb open_database dl creates renames n d)
unfolding auto_download_mmdb run_steps file_step
auto_download_mmdb-IsAtomic o no_answer creates renames n d = untouched o no_answer d
auto_download_mmdb-IsAtomic o (copied pieces complete) false renames n d =
    untouched o (copied pieces complete) d
auto_download_mmdb-IsAtomic o (copied pieces complete) true renames zero d =
    untouched o (copied pieces complete) d
auto_download_mmdb-IsAtomic o (copied pieces complete) true renames (suc n) d =
    copied-IsAtomic o (copied pieces complete) d complete renames pieces pieces [] n
      (record d { files = insert temporary_file [] d.files }) refl refl (created-IsCopying d)
