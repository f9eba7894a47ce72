-- ===== src/Cas/Store/Materialize/Tally.antt =====
-- crates/jet-cas/src/store.rs: the counters `MaterializeStats`, and what they count.
use jetrun.Prelude.{ℕ, ◌+◌, ◌%◌, ◌^◌, Bool, List, [], ◌∷◌, Bytes, ◌≡◌, arith}
use jetrun.Cas.Link.{LinkMode, reflink, hardlink, copy, Place}
use jetrun.Cas.Store.{PathBuf}
use jetrun.Cas.Store.Materialize.{
  add64, MaterializeStats, Effect, made_dir, placed, left, chmod, made_symlink, record_file,
}

-- The sum over what was done.
abbrev pub tally : (Effect → ℕ) → List Effect → ℕ
tally weight [] = 0
tally weight (e ∷ log) = weight e + tally weight log

abbrev pub reflinks : Effect → ℕ
reflinks (made_dir path) = 0
reflinks (placed path digest size executable reflink place) = 1
reflinks (placed path digest size executable hardlink place) = 0
reflinks (placed path digest size executable copy place) = 0
reflinks (left path place) = 0
reflinks (chmod path mode place) = 0
reflinks (made_symlink path target) = 0

abbrev pub hardlinks : Effect → ℕ
hardlinks (made_dir path) = 0
hardlinks (placed path digest size executable reflink place) = 0
hardlinks (placed path digest size executable hardlink place) = 1
hardlinks (placed path digest size executable copy place) = 0
hardlinks (left path place) = 0
hardlinks (chmod path mode place) = 0
hardlinks (made_symlink path target) = 0

abbrev pub copies : Effect → ℕ
copies (made_dir path) = 0
copies (placed path digest size executable reflink place) = 0
copies (placed path digest size executable hardlink place) = 0
copies (placed path digest size executable copy place) = 1
copies (left path place) = 0
copies (chmod path mode place) = 0
copies (made_symlink path target) = 0

abbrev pub directories : Effect → ℕ
directories (made_dir path) = 1
directories (placed path digest size executable mode place) = 0
directories (left path place) = 0
directories (chmod path mode place) = 0
directories (made_symlink path target) = 0

abbrev pub links : Effect → ℕ
links (made_dir path) = 0
links (placed path digest size executable mode place) = 0
links (left path place) = 0
links (chmod path mode place) = 0
links (made_symlink path target) = 1

abbrev pub octets : Effect → ℕ
octets (made_dir path) = 0
octets (placed path digest size executable mode place) = size
octets (left path place) = 0
octets (chmod path mode place) = 0
octets (made_symlink path target) = 0

abbrev Counts : ℕ → (Effect → ℕ) → List Effect → Type 0
Counts n weight log = n ≡ tally weight log % 2 ^ 64

-- Each counter is the sum of what was done, on `u64`.
pub record Agrees (stats : MaterializeStats) (log : List Effect) : Type 0 where
  pub reflinked : Counts stats.reflinked reflinks log
  pub hardlinked : Counts stats.hardlinked hardlinks log
  pub copied : Counts stats.copied copies log
  pub dirs : Counts stats.dirs directories log
  pub symlinks : Counts stats.symlinks links log
  pub bytes : Counts stats.bytes octets log

more : (n t k : ℕ) → n ≡ t % 2 ^ 64 → add64 n k ≡ (k + t) % 2 ^ 64
more n t k h = omega arith

same : (n t : ℕ) → n ≡ t % 2 ^ 64 → n ≡ (0 + t) % 2 ^ 64
same n t h = omega arith

-- What neither places, makes a directory nor makes a link changes no counter.
pub chmod-Agrees :
    {stats : MaterializeStats} {log : List Effect} (path : PathBuf) (mode : ℕ) (place : Place)
    → Agrees stats log
    → Agrees stats (chmod path mode place ∷ log)
chmod-Agrees path mode place a = record {
  reflinked = same _ _ a.reflinked;
  hardlinked = same _ _ a.hardlinked;
  copied = same _ _ a.copied;
  dirs = same _ _ a.dirs;
  symlinks = same _ _ a.symlinks;
  bytes = same _ _ a.bytes;
}

pub left-Agrees :
    {stats : MaterializeStats} {log : List Effect} (path : PathBuf) (place : Place)
    → Agrees stats log
    → Agrees stats (left path place ∷ log)
left-Agrees path place a = record {
  reflinked = same _ _ a.reflinked;
  hardlinked = same _ _ a.hardlinked;
  copied = same _ _ a.copied;
  dirs = same _ _ a.dirs;
  symlinks = same _ _ a.symlinks;
  bytes = same _ _ a.bytes;
}

pub placed-Agrees :
    {log : List Effect} (path : PathBuf) (digest : Bytes) (size : ℕ) (executable : Bool)
    (mode : LinkMode) (place : Place) (stats : MaterializeStats)
    → Agrees stats log
    → Agrees (record_file mode size stats) (placed path digest size executable mode place ∷ log)
placed-Agrees path digest size executable reflink place stats a = record {
  reflinked = more _ _ 1 a.reflinked;
  hardlinked = same _ _ a.hardlinked;
  copied = same _ _ a.copied;
  dirs = same _ _ a.dirs;
  symlinks = same _ _ a.symlinks;
  bytes = more _ _ size a.bytes;
}
placed-Agrees path digest size executable hardlink place stats a = record {
  reflinked = same _ _ a.reflinked;
  hardlinked = more _ _ 1 a.hardlinked;
  copied = same _ _ a.copied;
  dirs = same _ _ a.dirs;
  symlinks = same _ _ a.symlinks;
  bytes = more _ _ size a.bytes;
}
placed-Agrees path digest size executable copy place stats a = record {
  reflinked = same _ _ a.reflinked;
  hardlinked = same _ _ a.hardlinked;
  copied = more _ _ 1 a.copied;
  dirs = same _ _ a.dirs;
  symlinks = same _ _ a.symlinks;
  bytes = more _ _ size a.bytes;
}

pub dir_made-Agrees :
    {log : List Effect} (path : PathBuf) (stats : MaterializeStats)
    → Agrees stats log
    → Agrees (record stats { dirs = add64 stats.dirs 1 }) (made_dir path ∷ log)
dir_made-Agrees path stats a = record {
  reflinked = same _ _ a.reflinked;
  hardlinked = same _ _ a.hardlinked;
  copied = same _ _ a.copied;
  dirs = more _ _ 1 a.dirs;
  symlinks = same _ _ a.symlinks;
  bytes = same _ _ a.bytes;
}

pub symlink_made-Agrees :
    {log : List Effect} (path : PathBuf) (target : Bytes) (stats : MaterializeStats)
    → Agrees stats log
    → Agrees (record stats { symlinks = add64 stats.symlinks 1 }) (made_symlink path target ∷ log)
symlink_made-Agrees path target stats a = record {
  reflinked = same _ _ a.reflinked;
  hardlinked = same _ _ a.hardlinked;
  copied = same _ _ a.copied;
  dirs = same _ _ a.dirs;
  symlinks = more _ _ 1 a.symlinks;
  bytes = same _ _ a.bytes;
}
