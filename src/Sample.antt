-- ===== src/Sample.antt =====
-- The other crates as concrete functions, for examples: association lists for the trees, a codec
-- for JSON records, and byte strings of unary digits. They satisfy the laws of `Reliable`.
pub mod Disk
pub mod Records
mod Codec
mod Trees
use hayate.Prelude.{ℕ, ◌≡◌, ap, refl, Option, none, some, List, [], ◌∷◌, true}
use hayate.Prelude.Text.{Bytes}
use hayate.Result.{ok}
use hayate.Chain.{MultiEraBlock}
use hayate.Rewards.Withdrawals.{Scans}
use hayate.Externals.{Externals, Reliable}

-- The libraries, where `decode_block` answers a given block.
abbrev pub libraries : Option MultiEraBlock → Externals
libraries block = record {
  Tree = Trees.Entries;
  get = λ t k. ok (Trees.find t k);
  insert = λ t k v. (ok tt, (k, some v) ∷ t);
  delete = λ t k. (ok tt, (k, none) ∷ t);
  scan_prefix = Trees.scan;
  save_snapshot = λ t n l. (ok tt, t);
  MonoidalTree = List (Bytes × ℕ);
  get_monoid = λ t k. ok (Trees.total t k);
  insert_monoid = λ t k n. (ok tt, (k, n) ∷ t);
  to_vec = λ j. ok (Codec.write j);
  from_slice = λ b. ok (Codec.parse b);
  hex_encode = Codec.encode;
  hex_decode = λ t. some (Codec.decode t);
  decode_block = λ _. block;
  parse_address = λ _. none;
  blake2b_256 = λ b. b;
  cleanup_directory = λ _ _. true;
}

abbrev pub reliable : (block : Option MultiEraBlock) → Reliable (libraries block)
reliable block = record {
  find = Trees.find;
  get_lem = λ t k. refl;
  insert_succeeds = λ t k v. refl;
  find-insert = λ t k v j. refl;
  delete_succeeds = λ t k. refl;
  find-delete = λ t k j. refl;
  mem-scan_prefix = Trees.mem-scan;
  save_succeeds = λ t n l. refl;
  find-save_snapshot = λ t n l k. refl;
  total = Trees.total;
  get_monoid_lem = λ t k. refl;
  insert_monoid_succeeds = λ t k n. refl;
  total-insert = λ t k n j. refl;
  written = Codec.write;
  reread = Codec.reread;
  to_vec_lem = λ j. refl;
  from_slice-written = λ j. ap (λ x. ok x) (Codec.parse-write j);
  str_field-reread = Codec.str_field-reread;
  u64_field-reread = Codec.u64_field-reread;
  hex_decode-encode = λ b. ap (λ x. some x) (Codec.decode-encode b);
  All-hex_encode = Codec.All-encode;
}

-- A new entry is the first of every scan that lists it.
abbrev pub scans : (block : Option MultiEraBlock) → Scans (libraries block) (reliable block)
scans block = record {
  scan-insert = λ t p r k v fresh e. ([], Trees.scan t p, refl, Trees.scan-new t p r k v fresh e);
}
