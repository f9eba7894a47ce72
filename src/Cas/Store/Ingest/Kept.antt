-- ===== src/Cas/Store/Ingest/Kept.antt =====
-- crates/jet-cas/src/store.rs: what `ingest_dir` does to the store.

use jetrun.Prelude.{
  ℕ, Bool, true, List, [], ◌∷◌, ◌++◌, ok, Bytes, bytes_eq, bytes_eq_iff, bytes_eq_refl, any, All,
  In, ◌≡◌, refl, sym, subst, ◌∙◌, ap, ◌⊎◌, inl, inr, Bool-cases,
}
use mathlib.Core.Bool.{false≢true}
use jetrun.Cas.Tree.{Tree, Node, file, dir, symlink}
use jetrun.Cas.Store.{Object, has, get_bytes, put}
use jetrun.Cas.Store.Intact.{has-get_bytes}
use jetrun.Cas.Store.Put.{Reads, read_chunks}
use jetrun.Cas.Store.Ingest.{
  Dir, unreadable, readable, Entries, no_entries, bad_entry, entry, File, unstatable, symlink_to,
  directory, regular, special,
}

-- An object of this name is in the store.
abbrev pub IsStored : List Object → Bytes → Type 0
IsStored objects d = (b : Bytes) × (get_bytes objects d ≡ ok b)

-- What an entry of a manifest points to is in the store.
abbrev pub IsPresent : List Object → Node → Type 0
IsPresent objects (file digest size executable) = IsStored objects digest
IsPresent objects (dir digest) = IsStored objects digest
IsPresent objects (symlink target) = Unit

abbrev pub AllPresent : List Object → Tree → Type 0
AllPresent objects t = All (λ e. IsPresent objects e.1) t

-- The regular files under a directory.
unfoldable mutual
  pub files_of : Dir → List Reads
  files_of (unreadable e) = []
  files_of (readable entries) = files_in entries

  pub files_in : Entries → List Reads
  files_in no_entries = []
  files_in (bad_entry e) = []
  files_in (entry raw found rest) = files_at found ++ files_in rest

  pub files_at : File → List Reads
  files_at (unstatable e) = []
  files_at (symlink_to link) = []
  files_at (directory d staging) = files_of d
  files_at (regular reads executable) = reads ∷ []
  files_at special = []

-- The contents that a hash of the file may be of: what it is when read whole, or in chunks.
abbrev pub IsHashed : Reads → Bytes → Type 0
IsHashed r contents = (r.whole ≡ ok contents) ⊎ (read_chunks r.chunks ≡ ok contents)

-- What a file is answered as: the digest of contents that were hashed, and the size that it had.
abbrev pub IsFileOf : (Bytes → Bytes) → Reads → Bytes × ℕ → Type 0
IsFileOf blob_digest r a =
    (contents : Bytes) × IsHashed r contents
    × (a.0 ≡ blob_digest contents)
    × ((is_file : Bool) × (r.stat ≡ ok (is_file, a.1)))

-- The object of a file: named by what was hashed, with what was placed or copied.
abbrev pub IsBlob : (Bytes → Bytes) → Reads → Object → Type 0
IsBlob blob_digest r o =
    (contents : Bytes) × IsHashed r contents
    × (o.digest ≡ blob_digest contents)
    × ((o.bytes ≡ r.placed) ⊎ (o.bytes ≡ r.copied))

module _ (blob_digest tree_hash : Bytes → Bytes) (P : Reads → Type 0) where
  -- An object that is new: a manifest, named by its contents, or that of a file with P.
  abbrev pub IsNew : Object → Type 0
  IsNew o = (o.digest ≡ tree_hash o.bytes) ⊎ ((r : Reads) × P r × IsBlob blob_digest r o)

  -- Everything is read as before, and what was added is new in this sense.
  pub record Grows (before after : List Object) : Type 0 where
    pub kept : (d b : Bytes) → get_bytes before d ≡ ok b → get_bytes after d ≡ ok b
    pub added : (o : Object) → In o after → In o before ⊎ IsNew o

  pub Grows-refl : (os : List Object) → Grows os os
  Grows-refl os = record { kept = λ d b h. h; added = λ o m. inl m }

  pub Grows-trans : {a b c : List Object} → Grows a b → Grows b c → Grows a c
  Grows-trans p q = record {
    kept = λ d b h. q.kept d b (p.kept d b h);
    added = λ o m. elim (q.added o m) [ inl l ↦ p.added o l | inr n ↦ inr n ];
  }

  get_bytes-has : (os : List Object) (d b : Bytes) → get_bytes os d ≡ ok b → has os d ≡ true
  unfolding get_bytes has any
  get_bytes-has [] d b h = cc
  get_bytes-has (o ∷ os) d b h = elim (Bool-cases (bytes_eq o.digest d)) [
    | inl e ↦ rw e refl
    | inr e ↦ rw e (get_bytes-has os d b (rw e at h))
  ]

  pub put-Grows :
      (os : List Object) (d bytes : Bytes) (now : ℕ)
      → IsNew (record { digest = d; bytes = bytes; modified = now })
      → Grows os (put os d bytes now)
  unfolding get_bytes
  put-Grows os d bytes now n = elim (Bool-cases (has os d)) [
    | inl e ↦ rw e (Grows-refl os)
    | inr e ↦ rw e (record {
      kept = λ q b h. elim (Bool-cases (bytes_eq d q)) [
        | inl f ↦
            absurd
              (false≢true (sym e ∙ ap (has os) ((bytes_eq_iff d q).0 f) ∙ get_bytes-has os q b h))
        | inr f ↦ rw f h
      ];
      added = λ o m. elim m [ inl x ↦ inr (new_as o x) | inr l ↦ inl l ];
    })
  ]
    where
      new_as : (o : Object) → o ≡ record { digest = d; bytes = bytes; modified = now } → IsNew o
      new_as o x = subst IsNew (sym x) n

  pub put-IsStored :
      (os : List Object) (d bytes : Bytes) (now : ℕ) → IsStored (put os d bytes now) d
  unfolding get_bytes
  put-IsStored os d bytes now = elim (Bool-cases (has os d)) [
    | inl e ↦ rw e (has-get_bytes os d e)
    | inr e ↦ rw e (bytes, rw (bytes_eq_refl d) refl)
  ]

  pub IsPresent-kept :
      {a b : List Object} → Grows a b → (node : Node) → IsPresent a node → IsPresent b node
  IsPresent-kept g (file digest size executable) (bytes, h) = (bytes, g.kept digest bytes h)
  IsPresent-kept g (dir digest) (bytes, h) = (bytes, g.kept digest bytes h)
  IsPresent-kept g (symlink target) h = tt

  pub AllPresent-kept :
      {a b : List Object} → Grows a b → (t : Tree) → AllPresent a t → AllPresent b t
  AllPresent-kept g [] h = tt
  AllPresent-kept g ((name, node) ∷ es) (h, hs) = (IsPresent-kept g node h, AllPresent-kept g es hs)
