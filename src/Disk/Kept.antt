-- ===== src/Disk/Kept.antt =====
-- A disk that still works, and on which only one file may have changed.
use ferrum_db.Base.{◌≡◌, ◌≢◌, refl, ◌∙◌, []}
use ferrum_db.Base.Bytes.{Bytes}
use ferrum_db.BTreeMap
use ferrum_db.BTreeMap.{BTreeMap}
use ferrum_db.BTreeMap.Lookup
use ferrum_db.Disk.{Disk, put_file}

-- The files after some writes to the one at `path`.
pub data Written (path : Bytes) : BTreeMap Bytes → BTreeMap Bytes → Type 0 where
  untouched : {m : BTreeMap Bytes} → Written path m m
  put :
      {m n : BTreeMap Bytes} (b : Bytes)
      → Written path m n
      → Written path m (BTreeMap.insert path b n)

pub record Kept (path : Bytes) (d after : Disk) : Type 0 where
  pub works : after.faults ≡ []
  pub dirs : after.dirs ≡ d.dirs
  pub written : Written path d.files after.files

Written-trans :
    {path : Bytes} {l m n : BTreeMap Bytes} → Written path l m → Written path m n → Written path l n
Written-trans w Written.untouched = w
Written-trans w (Written.put b v) = Written.put b (Written-trans w v)

Written-get :
    {path : Bytes} {m n : BTreeMap Bytes}
    → Written path m n
    → (q : Bytes) → q ≢ path
    → BTreeMap.get q n ≡ BTreeMap.get q m
Written-get Written.untouched q h = refl
Written-get {path} (Written.put {n = n} b w) q h =
    Lookup.get-insert_ne q path b n h ∙ Written-get w q h

-- What holds of the files and is kept by each write holds after all of them.
pub Written-keeps :
    (P : BTreeMap Bytes → Type 0) {path : Bytes} {m n : BTreeMap Bytes}
    → ((b : Bytes) (l : BTreeMap Bytes) → P l → P (BTreeMap.insert path b l))
    → Written path m n
    → P m
    → P n
Written-keeps P step Written.untouched h = h
Written-keeps P step (Written.put {n = n} b w) h = step b n (Written-keeps P step w h)

pub Kept-others :
    (path : Bytes) (d after : Disk)
    → Kept path d after
    → (q : Bytes) → q ≢ path
    → BTreeMap.get q after.files ≡ BTreeMap.get q d.files
Kept-others path d after k = Written-get k.written

pub Kept-refl : (path : Bytes) (d : Disk) → d.faults ≡ [] → Kept path d d
Kept-refl path d healthy = record { works = healthy; dirs = refl; written = Written.untouched }

pub Kept-trans : (path : Bytes) (d e f : Disk) → Kept path d e → Kept path e f → Kept path d f
Kept-trans path d e f k l = record {
  works = l.works;
  dirs = l.dirs ∙ k.dirs;
  written = Written-trans k.written l.written;
}

pub Kept-put_file : (path b : Bytes) (d : Disk) → d.faults ≡ [] → Kept path d (put_file path b d)
Kept-put_file path b d healthy = record {
  works = healthy;
  dirs = refl;
  written = Written.put b Written.untouched;
}
