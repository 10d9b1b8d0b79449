-- ===== src/Node/Fetches.antt =====
-- iroh-nix/src/node.rs: the index after a fetch.
use iroh_nix.Support.{
  ℕ, ◌+◌, ◌^◌, ◌<◌, ◌≡◌, refl, sym, ap, ◌∙◌, inl, inr, true, none, some, [], arith, Bytes, eq_nat,
  eq_bytes,
}
use mathlib.Core.Path.{subst}
use iroh_nix.Error.{ok, err, panic, Result-cases}
use iroh_nix.HashIndex.Entries.{HashEntry, to_row}
use iroh_nix.HashIndex.{Table, insert, insert_or_replace, execute, get_by_blake3, get_by_store_path}
use iroh_nix.HashIndex.RoundTrip.{IsEntry, insert-get}
use iroh_nix.Retry.{Floats, RetryConfig}
use iroh_nix.Transfer.{NarResponseHeader, Postcard}
use iroh_nix.Transfer.Client.{Peer, fetch_nar_with_config}
use iroh_nix.Transfer.Verified.{IsVerified, fetch_nar_with_config-IsVerified}
use iroh_nix.Node.{
  System, ImportResult, known_references, inserted, fetched_entry, import_result, record_fetch,
  fetch_from_with_config,
}

insert-stored :
    (e : HashEntry) (table : Table) → insert true e table ≡ ok (insert_or_replace (to_row e) table)
unfolding insert execute
insert-stored e table = refl

-- The entry that the header describes, with what Nix has of the path.
abbrev pub described : System → Bytes → NarResponseHeader → HashEntry
described system blake3 header = record {
  blake3 = blake3;
  sha256 = header.sha256;
  store_path = header.store_path;
  nar_size = header.size;
  references = elim (system.query header.store_path) [
    | ok info ↦ info.references
    | err e ↦ []
    | panic ↦ []
  ];
  deriver = elim (system.query header.store_path) [
    | ok info ↦ info.deriver
    | err e ↦ none
    | panic ↦ none
  ];
}

abbrev pub shown_import : Bytes → NarResponseHeader → ImportResult
shown_import blake3 header = record {
  store_path = header.store_path;
  blake3 = blake3;
  sha256 = header.sha256;
  nar_size = header.size;
}

fetched_entry-described :
    (system : System) (blake3 : Bytes) (header : NarResponseHeader)
    → fetched_entry system blake3 header ≡ described system blake3 header
unfolding fetched_entry known_references
fetched_entry-described system blake3 header =
    elim (Result-cases (system.query header.store_path)) [
      | inl (info, e) ↦ rw e refl
      | inr (inl (x, e)) ↦ rw e refl
      | inr (inr e) ↦ rw e refl
    ]

shown_import-described :
    (system : System) (blake3 : Bytes) (header : NarResponseHeader)
    → import_result (fetched_entry system blake3 header) ≡ shown_import blake3 header
unfolding import_result fetched_entry
shown_import-described system blake3 header = refl

module _ (system : System) {Float : Type 0} (floats : Floats Float) (postcard : Postcard)
    (blake3_hash : Bytes → Bytes) (peers : ℕ → Peer) (config : RetryConfig Float) where
  record_fetch-stored :
      (blake3 nar_data : Bytes) (header : NarResponseHeader) (table : Table)
      → system.stores ≡ true
      → record_fetch system blake3 table (ok (header, nar_data)) ≡ (
        insert_or_replace (to_row (fetched_entry system blake3 header)) table,
        ok (import_result (fetched_entry system blake3 header), nar_data),
      )
  unfolding record_fetch inserted insert execute
  record_fetch-stored blake3 nar_data header table stored = ground (arith, stored)

  got_indexed :
      (blake3 nar_data : Bytes) (header : NarResponseHeader) (table : Table)
      → config.max_retries + 1 < 2 ^ 32
      → system.stores ≡ true
      → fetch_nar_with_config floats postcard blake3_hash peers config blake3
        ≡ ok (header, nar_data)
      → IsEntry (fetched_entry system blake3 header)
      → (next : Table) × (fetch_from_with_config system floats postcard blake3_hash peers config
            blake3 table
          ≡ (next, ok (import_result (fetched_entry system blake3 header), nar_data)))
        × IsVerified postcard blake3_hash blake3 (header, nar_data)
        × (get_by_blake3 true blake3 next ≡ ok (some (fetched_entry system blake3 header)))
        × (get_by_store_path true header.store_path next
            ≡ ok (some (fetched_entry system blake3 header)))
  unfolding fetch_from_with_config fetched_entry
  got_indexed blake3 nar_data header table few stored got fits =
      let entry = fetched_entry system blake3 header in
      let next = insert_or_replace (to_row entry) table in
      let (by_blake3, by_sha256, by_path) =
        insert-get entry fits table next (insert-stored entry table) in
      (
        next,
        rw got (record_fetch-stored blake3 nar_data header table stored),
        fetch_nar_with_config-IsVerified floats postcard blake3_hash peers config blake3
            (header, nar_data) few got,
        by_blake3,
        by_path,
      )

  -- A fetch that succeeds, with an index that stores and fewer than 2^32 attempts, of an entry with hashes
  -- of 32 bytes,
  -- a size below 2^64, and references and deriver below /nix/store with printable names: the node returns the
  -- NAR, which has the BLAKE3 hash that was asked for and the length that the header states, and the index
  -- then has an entry under that hash. The entry's SHA-256 hash, size and store path are those of the peer's
  -- header, whatever they are, its references and deriver those that Nix has of that path, if any, and the
  -- entry is found under that path, in place of any that the index had there.
  pub fetch_from_with_config-Indexed :
      (blake3 nar_data : Bytes) (header : NarResponseHeader) (table : Table)
      → config.max_retries + 1 < 2 ^ 32
      → system.stores ≡ true
      → fetch_nar_with_config floats postcard blake3_hash peers config blake3
        ≡ ok (header, nar_data)
      → IsEntry (described system blake3 header)
      → (next : Table) × (fetch_from_with_config system floats postcard blake3_hash peers config
            blake3 table
          ≡ (next, ok (shown_import blake3 header, nar_data)))
        × IsVerified postcard blake3_hash blake3 (header, nar_data)
        × (get_by_blake3 true blake3 next ≡ ok (some (described system blake3 header)))
        × (get_by_store_path true header.store_path next
            ≡ ok (some (described system blake3 header)))
  fetch_from_with_config-Indexed blake3 nar_data header table few stored got fits =
      let same = fetched_entry-described system blake3 header in
      let (next, run, verified, by_hash, by_path) =
        got_indexed blake3 nar_data header table few stored got (subst IsEntry (sym same) fits) in
      (
        next,
        run ∙ ap (λ r. (next, ok (r, nar_data))) (shown_import-described system blake3 header),
        verified,
        by_hash ∙ ap (λ x. ok (some x)) same,
        by_path ∙ ap (λ x. ok (some x)) same,
      )
