-- ===== src/Cas/Store/Ingest/Tests.antt =====
-- crates/jet-cas/src/store.rs: small directories ingested, and one written out again. The hash of a
-- manifest is 32 times its length, and that of a blob 32 times its length and 100.
use jetrun.Prelude.{
  All, In, ◌⊎◌, inl, inr, sym, ◌∙◌, ◌+◌, true, false, none, some, [], ◌∷◌, ok, err, Result, ◌≡◌,
  refl, any, length, replicate, Bytes, codes, bytes_eq,
}
use jetrun.Prelude.Stateful.{Outcome, continue}
use jetrun.Cas.Name as EntryName
use jetrun.Cas.Name.{bytes_cmp, is_utf8, utf8_from, next_byte, lead_byte, is_empty}
use jetrun.Cas.Tree.{
  insert, encode, encode_entries, encode_entry, encode_node, tag, decode, decode_entries,
  decode_entry, decode_node, take_bytes, u8, u16, u32, u64, remaining, is_exhausted, digest_len,
}
use jetrun.Cas.Link.{
  Errno, eopnotsupp, eperm, Intent, overlay_lower, private_inode, LinkMode, reflink, hardlink, copy,
  Capabilities, cap_unknown, cap_no, Place, nothing, same_inode, duplicate, Calls, try_reflink,
  raw_reflink, try_hardlink, link_or_copy, clone_or_else, copied, cloned, linked, is_unsupported,
  is_unlinkable, may_clone, reflink_supported,
}
use jetrun.Cas.Link
use jetrun.Cas.Store.{
  Object, CasError, io_error, has, get_bytes, get_tree, unsupported_file_type, non_utf8_name,
  not_a_file,
}
use jetrun.Cas.Store.Materialize.{
  made_dir, placed, chmod, made_symlink, Kernel, want, filed, place_file, own_mode, set_mode,
  materialize_file, materialize_node, materialize_entries, materialize_into, materialize_tree,
}
use jetrun.Cas.Store.Put
use jetrun.Cas.Store.Put.{
  relaxed, Staging, Reads, Shelf, read_chunks, hashed_contents, seal_and_commit, insert_staged,
  placed_or_copied, place_new, put_file,
}
use jetrun.Core.Digest.{fanout, to_hex, hex_digit}
use jetrun.Cas.Store.Ingest.{
  Dir, readable, no_entries, bad_entry, entry, symlink_to, directory, regular, special,
  ingest_dir_inner, ingest_entries, ingest_entry, ingest_dir,
}
use jetrun.Cas.Store.Ingest.Kept.{Grows, files_of, files_in, files_at}
use jetrun.Cas.Store.Ingest.Walk.{IsIngested}
use jetrun.Cas.Store.Ingest.Grown.{IsSteady, IsNamed, ingest_dir-Grows, ingest_dir-IsNamed}

program : Unit {0}
unfolding insert encode encode_entries encode_entry encode_node tag decode decode_entries
    decode_entry decode_node take_bytes u8 u16 u32 u64 remaining is_exhausted bytes_cmp is_utf8
    utf8_from next_byte lead_byte is_empty EntryName.contains EntryName.new bytes_eq any has
    get_bytes get_tree Link.materialize try_reflink raw_reflink try_hardlink link_or_copy
    clone_or_else copied cloned linked is_unsupported is_unlinkable may_clone reflink_supported
    continue want filed place_file own_mode set_mode materialize_file materialize_node
    materialize_entries materialize_into materialize_tree Put.put_tree put_file read_chunks
    hashed_contents seal_and_commit insert_staged placed_or_copied place_new fanout to_hex hex_digit
    ingest_dir_inner ingest_entries ingest_entry ingest_dir files_of files_in files_at
program = tt

abbrev hash : Bytes → Bytes
hash bytes = replicate digest_len (length bytes)

abbrev blob : Bytes → Bytes
blob bytes = replicate digest_len (100 + length bytes)

abbrev plain : Calls
plain = record {
  remove_file = none;
  open_source = none;
  create_new = none;
  ficlone = some eopnotsupp;
  remove_partial = none;
  hard_link = none;
  copy_file = none;
}

abbrev staging : Staging
staging = record {
  create_file = none;
  write_all = none;
  sync_all = none;
  metadata = none;
  set_permissions = none;
  create_dir_all = none;
  rename = none;
}

-- A file that gives the same contents to every read.
abbrev still : Bytes → Reads
still contents = record {
  stat = ok (true, length contents);
  whole = ok contents;
  open_hashing = none;
  chunks = ok contents ∷ ok [] ∷ [];
  staged = nothing;
  placing = plain;
  placed = contents;
  open_ingest = none;
  copied = contents;
  staging = staging;
}

abbrev source : Dir
source = readable (
    entry (codes "text") (regular (still (codes "fn main()")) false)
      (entry (codes "run") (regular (still (codes "#!")) true) no_entries))

abbrev root : Dir
root = readable (
    entry (codes "src") (directory source staging)
      (entry (codes "link") (symlink_to (ok (codes "/etc"))) no_entries))

abbrev empty : Shelf
empty = record { objects = []; caps = cap_unknown; ioctls = 0 }

abbrev ingest : Dir → Result Bytes CasError × Shelf
ingest d =
    ingest_dir (λ digest. codes "hex") (codes "store" ∷ []) relaxed 5 blob hash d staging
      (codes "in" ∷ []) empty

abbrev ingested : Result Bytes CasError × Shelf
ingested = ingest root

abbrev kernel : Kernel
kernel = record {
  exists = λ path. false;
  create_dir = λ path. none;
  before = λ path. nothing;
  calls = λ path. plain;
  metadata = λ path. none;
  set_permissions = λ path. none;
  symlink_call = λ path. none;
}

abbrev digest_of : Result Bytes CasError → Bytes
digest_of (ok d) = d
digest_of (err e) = []

-- What was ingested is what is written out.
written_out :
    (materialize_tree hash ingested.1.objects kernel private_inode
      (digest_of ingested.0)
      (codes "out" ∷ [])
      cap_no
      0).1.log
    ≡ (chmod (codes "out" ∷ codes "src" ∷ codes "text" ∷ []) 420 duplicate
        ∷ placed
            (codes "out" ∷ codes "src" ∷ codes "text" ∷ [])
            (blob (codes "fn main()"))
            9
            false
            copy
            duplicate
        ∷ chmod (codes "out" ∷ codes "src" ∷ codes "run" ∷ []) 493 duplicate
        ∷ placed
            (codes "out" ∷ codes "src" ∷ codes "run" ∷ [])
            (blob (codes "#!"))
            2
            true
            copy
            duplicate
        ∷ made_dir (codes "out" ∷ codes "src" ∷ [])
        ∷ made_symlink (codes "out" ∷ codes "link" ∷ []) (codes "/etc")
        ∷ made_dir (codes "out" ∷ [])
        ∷ [])
unfolding program
written_out = refl

unsupported :
    (ingest (readable (entry (codes "fifo") special no_entries))).0
    ≡ err (unsupported_file_type (codes "in" ∷ codes "fifo" ∷ []))
unfolding program
unsupported = refl

not_a_text :
    (ingest (readable (entry (255 ∷ []) special no_entries))).0
    ≡ err (non_utf8_name (codes "in" ∷ (255 ∷ []) ∷ []))
unfolding program
not_a_text = refl

half_read :
    (ingest (readable (entry (codes "a") (regular (still (codes "a")) false) (bad_entry eperm)))).0
    ≡ err (io_error (codes "read_dir entry") (codes "in" ∷ []) eperm)
unfolding program
half_read = refl

-- What was ingested before an error stays.
kept_half :
    (ingest (
      readable (entry (codes "a") (regular (still (codes "a")) false) (bad_entry eperm)))).1.objects
    ≡ record { digest = blob (codes "a"); bytes = codes "a"; modified = 5 } ∷ []
unfolding program
kept_half = refl

replaced :
    (ingest (
      readable (
        entry
          (codes "a")
          (regular (record (still []) { stat = ok (false, 0) }) false)
          no_entries))).0
    ≡ err (not_a_file (codes "in" ∷ codes "a" ∷ []))
unfolding program
replaced = refl

-- A file that is edited after it was hashed is stored under the digest of what it was.
edited :
    (ingest (
      readable (
        entry
          (codes "a")
          (regular (record (still (codes "old")) { placed = codes "newer" }) false)
          (bad_entry eperm)))).1.objects
    ≡ record { digest = blob (codes "old"); bytes = codes "newer"; modified = 5 } ∷ []
unfolding program
edited = refl

-- A placing that fails is followed by a plain copy.
fallen_back :
    (ingest (
      readable (
        entry
          (codes "a")
          (regular
            (record (still (codes "a")) { placing = record plain { open_source = some eperm } })
            false)
          (bad_entry eperm)))).1.objects
    ≡ record { digest = blob (codes "a"); bytes = codes "a"; modified = 5 } ∷ []
unfolding program
fallen_back = refl

ingest_dir-Grows_example :
    Outcome
      (λ digest after.
        Grows blob hash (λ r. In r (files_of root)) [] after.objects
        × IsIngested blob hash root digest after.objects)
      (λ e after. Grows blob hash (λ r. In r (files_of root)) [] after.objects)
      ingested
ingest_dir-Grows_example =
    ingest_dir-Grows (λ digest. codes "hex") (codes "store" ∷ []) relaxed 5 blob hash root staging
      (codes "in" ∷ []) empty

still-IsSteady :
    (contents : Bytes)
    → read_chunks (ok contents ∷ ok [] ∷ []) ≡ ok contents
    → IsSteady (still contents)
still-IsSteady contents whole c h = elim h [
  | inl q ↦ (ok-same q, ok-same q)
  | inr q ↦ (ok-same (sym whole ∙ q), ok-same (sym whole ∙ q))
]
  where
    ok-same : ◌≡◌ {A = Result Bytes Errno} (ok contents) (ok c) → contents ≡ c
    ok-same q = cc

abbrev added : Object
added = record { digest = blob (codes "#!"); bytes = codes "#!"; modified = 5 }

is_added : In added ingested.1.objects
unfolding program
is_added = inr (inr (inl refl))

all-IsSteady : All IsSteady (files_of root)
unfolding program
all-IsSteady = (still-IsSteady (codes "fn main()") refl, (still-IsSteady (codes "#!") refl, tt))

ingest_dir-IsNamed_example : In added [] ⊎ IsNamed blob hash added
ingest_dir-IsNamed_example =
    ingest_dir-IsNamed (λ digest. codes "hex") (codes "store" ∷ []) relaxed 5 blob hash root staging
      (codes "in" ∷ []) empty added all-IsSteady is_added
