-- ===== src/BuildHook/Settings.antt =====
-- `read_settings` of iroh-nix/src/build_hook.rs against the format that its doc comment gives.
use iroh_nix.Support.{
  ℕ, zero, suc, ◌≤◌, ◌<◌, ◌≡◌, refl, ◌≢◌, Option, none, some, List, [], ◌∷◌, ◌++◌, append_assoc,
  arith, Bytes, eq_nat, eq_bytes, length, length-append,
}
use iroh_nix.Support.Maps.{Map, insert}
use iroh_nix.Support.Words.{length-to_le_bytes}
use iroh_nix.Error.{Result, >>=-eq-ok, ok, err, panic}
use iroh_nix.NixProtocol.{read_u32, write_u32, read_string, write_string}
use iroh_nix.NixProtocol.RoundTrip.{read_u32-write_u32, read_string-write_string, IsText}
use iroh_nix.NixProtocol.Progress.{read_u32-length, read_string-length}
use iroh_nix.BuildHook.{read_pair, read_setting, settings_step, settings_loop, read_settings}

-- The format of the doc comment of `read_settings`, which the tests of build_hook.rs write: a flag
-- of 4 bytes, 1 before the key and the value of each setting and 0 at the end.
abbrev pub settings_bytes : List (Bytes × Bytes) → Bytes
settings_bytes [] = write_u32 0
settings_bytes ((key, value) ∷ more) =
    write_u32 1 ++ (write_string key ++ (write_string value ++ settings_bytes more))

-- The settings put into the map in order, so that a later value of a key wins.
abbrev pub put_settings : Map Bytes Bytes → List (Bytes × Bytes) → Map Bytes Bytes
put_settings m [] = m
put_settings m ((key, value) ∷ more) = put_settings (insert key value m) more

abbrev pub AreText : List (Bytes × Bytes) → Type 0
AreText [] = Unit
AreText ((key, value) ∷ more) = IsText key × IsText value × AreText more

read_setting_pair :
    (key value rest : Bytes)
    → IsText key
    → IsText value
    → read_setting (write_u32 1 ++ (write_string key ++ (write_string value ++ rest)))
      ≡ ok (some (key, value), rest)
unfolding read_setting
read_setting_pair key value rest k v =
    rw (read_u32-write_u32 1 (write_string key ++ (write_string value ++ rest)) (omega arith)) (
      rw (read_string-write_string key (write_string value ++ rest) k.0 k.1)
        (rw (read_string-write_string value rest v.0 v.1)))

read_setting_end : (rest : Bytes) → read_setting (write_u32 0 ++ rest) ≡ ok (none, rest)
unfolding read_setting
read_setting_end rest = rw (read_u32-write_u32 0 rest (omega arith))

sent_parts :
    (key value : Bytes) (more : List (Bytes × Bytes)) (rest : Bytes)
    → settings_bytes ((key, value) ∷ more) ++ rest
      ≡ write_u32 1 ++ (write_string key ++ (write_string value ++ (settings_bytes more ++ rest)))
sent_parts key value more rest = simp append_assoc

settings_loop-sent :
    (fuel : ℕ) (m : Map Bytes Bytes) (kvs : List (Bytes × Bytes)) (rest : Bytes)
    → AreText kvs
    → length kvs < fuel
    → settings_loop fuel m (settings_bytes kvs ++ rest) ≡ some (ok (put_settings m kvs, rest))
unfolding settings_loop
settings_loop-sent zero m kvs rest t h = elim h [ ]
settings_loop-sent (suc fuel) m [] rest t h = rw (read_setting_end rest)
settings_loop-sent (suc fuel) m ((key, value) ∷ more) rest (k, v, t) h =
    rw (sent_parts key value more rest) (
      rw (read_setting_pair key value (settings_bytes more ++ rest) k v)
        (settings_loop-sent fuel (insert key value m) more rest t (omega arith)))

length-write_u32 : (n : ℕ) → length (write_u32 n) ≡ 4
unfolding write_u32
length-write_u32 n = length-to_le_bytes 4 n

length-sent : (kvs : List (Bytes × Bytes)) → length kvs ≤ length (settings_bytes kvs)
length-sent [] = omega arith
length-sent ((key, value) ∷ more) =
    let behind = write_string key ++ (write_string value ++ settings_bytes more) in
    omega (
      arith,
      length-append (write_u32 1) behind,
      length-write_u32 1,
      length-append (write_string key) (write_string value ++ settings_bytes more),
      length-append (write_string value) (settings_bytes more),
      length-sent more,
    )

-- Settings whose keys and values are UTF-8 of fewer than 2^63 bytes, written in the format that
-- `read_settings` documents (a 4-byte flag 1, key and value for each, then a 4-byte flag 0), are read
-- back whole, a later value of a key over an earlier one, and the bytes behind them are left.
pub read_settings-sent :
    (kvs : List (Bytes × Bytes)) (rest : Bytes)
    → AreText kvs
    → read_settings (settings_bytes kvs ++ rest) ≡ some (ok (put_settings [] kvs, rest))
unfolding read_settings
read_settings-sent kvs rest t =
    settings_loop-sent (suc (length (settings_bytes kvs ++ rest))) [] kvs rest t
      (omega (arith, length-append (settings_bytes kvs) rest, length-sent kvs))

read_pair-length :
    (body : Bytes) (o : Option (Bytes × Bytes)) (rest : Bytes)
    → read_pair body ≡ ok (o, rest)
    → length rest ≤ length body
unfolding read_pair
read_pair-length body o rest h =
    let ((key, more), e, h₁) = >>=-eq-ok (read_string body) _ h in
    let ((value, end), e₁, h₂) = >>=-eq-ok (read_string more) _ h₁ in
    ground (arith, h₂, read_string-length body key more e, read_string-length more value end e₁)

-- A round that goes on leaves fewer bytes.
read_setting-length :
    (input : Bytes) (o : Option (Bytes × Bytes)) (rest : Bytes)
    → read_setting input ≡ ok (o, rest)
    → length rest < length input
unfolding read_setting
read_setting-length input o rest h =
    let ((flag, body), e, h₁) = >>=-eq-ok (read_u32 input) _ h in
    ground (arith, h₁, read_u32-length input flag body e, read_pair-length body o rest)

settings_step_total :
    (loop : Map Bytes Bytes → Bytes → Option (Result (Map Bytes Bytes × Bytes)))
    (m : Map Bytes Bytes) (k : ℕ) (r : Result (Option (Bytes × Bytes) × Bytes))
    → ((o : Option (Bytes × Bytes)) (rest : Bytes) → r ≡ ok (o, rest) → length rest < k)
    → ((m' : Map Bytes Bytes) (rest : Bytes) → length rest < k → loop m' rest ≢ none)
    → settings_step loop m r ≢ none
unfolding settings_step
settings_step_total loop m k (ok (none, rest)) shorter total = λ e. cc e
settings_step_total loop m k (ok (some (key, value), rest)) shorter total =
    total (insert key value m) rest (shorter (some (key, value)) rest refl)
settings_step_total loop m k (err x) shorter total = λ e. cc e
settings_step_total loop m k panic shorter total = λ e. cc e

settings_loop_total :
    (fuel : ℕ) (m : Map Bytes Bytes) (input : Bytes)
    → length input < fuel
    → settings_loop fuel m input ≢ none
unfolding settings_loop
settings_loop_total zero m input h = elim h [ ]
settings_loop_total (suc fuel) m input h =
    settings_step_total (λ m' rest. settings_loop fuel m' rest) m (length input)
      (read_setting input) (λ o rest e. read_setting-length input o rest e)
      (λ m' rest shorter. settings_loop_total fuel m' rest (omega arith))

-- Reading the settings ends, with a map or an error, on any input.
read_settings_total : (input : Bytes) → read_settings input ≢ none
unfolding read_settings
read_settings_total input = settings_loop_total (suc (length input)) [] input (omega arith)
