-- ===== src/BuildHook/Tests.antt =====
-- Runs of the build hook of iroh-nix/src/build_hook.rs.
use iroh_nix.Support.{
  ℕ, ◌≡◌, refl, none, some, List, [], ◌∷◌, ◌++◌, map, arith, Bytes, codes, eq_nat, eq_bytes,
}
use iroh_nix.Support.Utf8.{is_utf8}
use iroh_nix.Error.{ok}
use iroh_nix.Build.Queue.{complete}
use iroh_nix.Build.Queue.Example.{hash, leased_queue, no_result}
use iroh_nix.BuildHook.{read_settings, poll_loop}
use iroh_nix.BuildHook.Settings.{settings_bytes, put_settings, read_settings-sent}
use iroh_nix.BuildHook.Polling.{answer, poll_loop-never_ends}

abbrev two_settings : List (Bytes × Bytes)
two_settings = (codes "cores", codes "4") ∷ (codes "cores", codes "8") ∷ []

abbrev shown : ℕ → Bytes
shown n = n ∷ []

read_settings-sent_example :
    read_settings (settings_bytes two_settings ++ 1 ∷ [])
    ≡ some (ok (put_settings [] two_settings, 1 ∷ []))
unfolding is_utf8
read_settings-sent_example =
    read_settings-sent two_settings (1 ∷ [])
      ((omega arith, refl), (omega arith, refl), ((omega arith, refl), (omega arith, refl), tt))

-- Between the polls builder 1 completes job 2.
poll_loop-never_ends_example :
    poll_loop
      (map (answer hash shown 20 2) (leased_queue ∷ (complete leased_queue 2 1 no_result).0 ∷ []))
    ≡ none
poll_loop-never_ends_example =
    poll_loop-never_ends hash shown 20 2
      (leased_queue ∷ (complete leased_queue 2 1 no_result).0 ∷ [])
