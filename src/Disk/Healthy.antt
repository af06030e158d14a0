-- ===== src/Disk/Healthy.antt =====
-- What each call does on a disk with no failures left.
use ferrum_db.Base.{
  ℕ, ◌+◌, ◌-◌, ◌≤◌, ◌≡◌, true, some, none, [], ◌++◌, length, take, drop, replicate, arith,
}
use ferrum_db.Base.Bytes.{Bytes}
use ferrum_db.BTreeMap
use ferrum_db.Errors.{ok, err, io_error, os}
use ferrum_db.Disk.{
  Disk, contents, put_file, exists, stat, create_dir_all, open_create, create_truncate,
  open_existing, write_all, sync_all, seek, file_len, read_to_end, read_exact, set_len, remove_file,
}

module _ (path : Bytes) (d : Disk) (healthy : d.faults ≡ []) where
  pub create_dir_all-healthy :
      create_dir_all path d ≡ (ok tt, record d { dirs = BTreeMap.insert path tt d.dirs })
  unfolding create_dir_all
  create_dir_all-healthy = rw healthy

  pub create_truncate-healthy : create_truncate path d ≡ (ok tt, put_file path [] d)
  unfolding create_truncate
  create_truncate-healthy = rw healthy

  pub sync_all-healthy : sync_all path d ≡ (ok tt, d)
  unfolding sync_all
  sync_all-healthy = rw healthy

  pub seek-healthy : (n : ℕ) → seek path n d ≡ (ok tt, d)
  unfolding seek
  seek-healthy n = rw healthy

  pub write_all-working :
      (b : Bytes) → write_all path b d ≡ (ok tt, put_file path (contents path d ++ b) d)
  unfolding write_all
  write_all-working b = rw healthy

  pub open_create-healthy_new :
      BTreeMap.get path d.files ≡ none → open_create path d ≡ (ok tt, put_file path [] d)
  unfolding open_create
  open_create-healthy_new e = ground (arith, healthy)

  pub stat-healthy : stat path d ≡ (ok (exists path d), d)
  unfolding stat
  stat-healthy = rw healthy

  pub remove_file-healthy_missing :
      BTreeMap.get path d.files ≡ none → remove_file path d ≡ (err (io_error os), d)
  unfolding remove_file
  remove_file-healthy_missing e = ground (arith, healthy)

  -- A file that is there is found as it is, and each call goes on from its bytes.
  module _ (file : Bytes) (found : BTreeMap.get path d.files ≡ some file) where
    pub exists-healthy : exists path d ≡ true
    exists-healthy = ground arith

    pub open_create-healthy : open_create path d ≡ (ok tt, d)
    unfolding open_create
    open_create-healthy = ground (arith, healthy)

    pub open_existing-healthy : open_existing path d ≡ (ok tt, d)
    unfolding open_existing
    open_existing-healthy = ground (arith, healthy)

    pub write_all-healthy : (b : Bytes) → write_all path b d ≡ (ok tt, put_file path (file ++ b) d)
    unfolding write_all
    write_all-healthy b = ground (arith, healthy)

    pub file_len-healthy : file_len path d ≡ (ok (length file), d)
    unfolding file_len
    file_len-healthy = ground (arith, healthy)

    pub read_to_end-healthy : read_to_end path d ≡ (ok file, d)
    unfolding read_to_end
    read_to_end-healthy = ground (arith, healthy)

    pub read_exact-healthy :
        (offset len : ℕ)
        → offset + len ≤ length file
        → read_exact path offset len d ≡ (ok (take len (drop offset file)), d)
    unfolding read_exact
    read_exact-healthy offset len h = ground (arith, healthy)

    pub set_len-healthy :
        (n : ℕ)
        → set_len path n d ≡ (ok tt, put_file path (take n file ++ replicate (n - length file) 0) d)
    unfolding set_len
    set_len-healthy n = ground (arith, healthy)

    pub remove_file-healthy :
        remove_file path d ≡ (ok tt, record d { files = BTreeMap.remove path d.files })
    unfolding remove_file
    remove_file-healthy = ground (arith, healthy)
