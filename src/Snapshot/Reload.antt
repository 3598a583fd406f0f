-- ===== src/Snapshot/Reload.antt =====
-- `save` and `load_latest` of snapshot.rs together.
use zapybase.Prelude.{◌+◌, ◌≤◌, ◌≡◌, refl, ap, ◌∙◌, true, some}
use zapybase.Env.{Env}
use zapybase.Error.{ok, ◌>>=◌}
use zapybase.Snapshot.{
  SnapshotManager, Snapshot, Codec, write_snapshot, load_last, load_latest, save,
}
use zapybase.Snapshot.Directory.{AllBelow, cleanup_newest}
use zapybase.Snapshot.Batches.{ReadsBack, load-write_snapshot}

module _ {env : Env} {State : Type 0} (codec : Codec env State) where
  -- A save that wrote everything, of a snapshot with an id above those in the directory, is what
  -- `load_latest` returns from then on, with the index state and every vector; the files that the
  -- cleanup leaves have ids up to that one, and as many are retained as before.
  pub save_reloads :
      (snapshot : Snapshot env State) (manager : SnapshotManager)
      → ReadsBack codec
      → 1 ≤ manager.retain_count
      → AllBelow snapshot.id manager.dir
      → (write_snapshot codec snapshot).0 ≡ true
      → let out = save codec snapshot manager in
        (out.0 ≡ ok tt)
        × (load_latest codec out.1 ≡ ok (some snapshot))
        × AllBelow (snapshot.id + 1) out.1.dir
        × (out.1.retain_count ≡ manager.retain_count)
  unfolding save load_latest load_last
  save_reloads snapshot manager codec_ok keep below done =
      let (newest, below', same) =
        cleanup_newest snapshot.id (write_snapshot codec snapshot).1 manager keep below in
      rw (done, save)
        (
          refl,
          ap (load_last codec) newest
              ∙ ap (λ r. r >>= λ s. ok (some s)) (load-write_snapshot codec codec_ok snapshot done),
          below',
          same,
        )
