-- ===== src/PrEngine/Patches.antt =====
-- _apply_patch_locally of agent/pr_engine.py: when a file is changed, and how.
use zerra.Prelude.{◌≡◌, refl, String, Bool, true, false, ◌∷◌, arith}
use zerra.Prelude.Results.{Error, Result, err, ok}
use zerra.Prelude.Effects.{return, handle, continue}
use zerra.ScanModels.{FixSuggestion}
use zerra.PrEngine.{
  write, Log, Host, path_join, perform, raise_if, write_text, reading, replaced, patch_target,
  apply_patch_locally, count, replace_first,
}

module _ (host : Host) (fix : FixSuggestion) where
  replaced-count :
      (target content : String) (log : Log) {message : String}
      → (handle
          (λ (e : Error). return (false, host.message e))
          (replaced host target fix content log)).0
        ≡ ok (true, message)
      → (count fix.original_code content ≡ 1)
        × ((handle
              (λ (e : Error). return (false, host.message e))
              (replaced host target fix content log)).1
            ≡ write target (replace_first fix.original_code fix.fixed_code content) ∷ log)
  unfolding replaced write_text perform raise_if
  replaced-count target content log returns = ground arith

  patch_target-count :
      (there : Bool) (target : String) (log : Log) {message : String}
      → (patch_target host there target fix log).0 ≡ ok (true, message)
      → (content : String) × (host.read_text log target ≡ ok content)
        × (count fix.original_code content ≡ 1)
        × ((patch_target host there target fix log).1
            ≡ write target (replace_first fix.original_code fix.fixed_code content) ∷ log)
  unfolding patch_target reading
  patch_target-count false target log returns = cc
  patch_target-count true target log {message} returns =
      read_first (host.read_text log target) refl returns
    where
      read_first :
          (r : Result String)
          → host.read_text log target ≡ r
          → (handle
              (λ (e : Error). return (false, host.message e))
              (continue (replaced host target fix) (r, log))).0
            ≡ ok (true, message)
          → (content : String) × (r ≡ ok content)
            × (count fix.original_code content ≡ 1)
            × ((handle
                  (λ (e : Error). return (false, host.message e))
                  (continue (replaced host target fix) (r, log))).1
                ≡ write target (replace_first fix.original_code fix.fixed_code content) ∷ log)
      read_first (err e) same went = cc
      read_first (ok content) same went =
          let one = replaced-count target content log went in (content, refl, one.0, one.1)

  -- A patch that is reported as applied was applied to a file in which its snippet stands exactly
  -- once, and all that was done is one write: that file, with the fix in the snippet's first place.
  pub apply_patch_locally_lem :
      (repo_path : String) (log : Log) {message : String}
      → (apply_patch_locally host repo_path fix log).0 ≡ ok (true, message)
      → (content : String) × (host.read_text log (path_join repo_path fix.file_path) ≡ ok content)
        × (count fix.original_code content ≡ 1)
        × ((apply_patch_locally host repo_path fix log).1
            ≡ write
                (path_join repo_path fix.file_path)
                (replace_first fix.original_code fix.fixed_code content)
              ∷ log)
  unfolding apply_patch_locally
  apply_patch_locally_lem repo_path log returns =
      patch_target-count (host.exists log (path_join repo_path fix.file_path))
        (path_join repo_path fix.file_path) log returns
