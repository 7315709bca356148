-- ===== src/Processor/Undo/Forward.antt =====
-- From a consistent storage, the transactions of a block succeed and stay undoable.
use hayate.Prelude.{
  ℕ, ◌+◌, ◌≡◌, refl, Bool, true, false, List, [], ◌∷◌, ◌++◌, arith, All, Bool-cases, Option-cases,
  inl, inr, not, is_some,
}
use hayate.Prelude.Text.{Bytes, Text}
use hayate.Result.{⊤, Exec, when, ◌>>◌, Returns, Returns-then, for_each}
use hayate.Chain.{MultiEraInput, MultiEraOutput, MultiEraTx}
use hayate.Externals.{Externals, Reliable, IsHexDigit}
use hayate.Filter.{WalletFilter, is_empty}
use hayate.Storage.State.{NetworkStorage}
use hayate.Manager.{StorageManager}
use hayate.Handle
use hayate.Processor.State.{TokenConfig, RollbackInfo, BlockStats, Work, ask, utxo_key_of}
use hayate.Processor.Ledger.{HasNoColon}
use hayate.Processor.Transaction.{
  At, process_input, process_output, process_outputs, process_transaction, is_tracked,
  extend_histories, track_tokens_in_transaction,
}
use hayate.Processor.Transaction.Effects.{
  work, spend_utxo-work, create_utxo-work, owner-stored, worth-stored,
}
use hayate.Processor.Transaction.Histories.{
  WritesHistories, WritesHistories-for_each, add_tx_to_address_history-WritesHistories,
  track_tokens-WritesHistories,
}
use hayate.Processor.Block.{process_transactions}
use hayate.Processor.Undo.{Progress, Distinct, Distinct-append, listed}
use hayate.Processor.Undo.Steps.{
  Spends-Progress, Creates-Progress, skip-Progress, with_histories-Progress,
}

-- The characters of hexadecimal text are no colons.
hex-HasNoColon : (t : Text) → All IsHexDigit t → HasNoColon t
hex-HasNoColon [] h = tt
hex-HasNoColon (c ∷ t) h = (omega arith, hex-HasNoColon t h.1)

module _ ⦃X : Externals⦄ where
  -- The keys and the coins of the outputs of a transaction, from the output `idx` on.
  abbrev pub output_keys : Bytes → ℕ → List MultiEraOutput → List Text
  output_keys tx_hash idx [] = []
  output_keys tx_hash idx (o ∷ rest) = utxo_key_of tx_hash idx ∷ output_keys tx_hash (idx + 1) rest

  -- The coins of outputs and of what follows them.
  abbrev pub coins_from : List MultiEraOutput → ℕ → ℕ
  coins_from [] n = n
  coins_from (o ∷ rest) n = o.coin + coins_from rest n

  abbrev pub block_keys : List MultiEraTx → List Text
  block_keys [] = []
  block_keys (tx ∷ rest) = output_keys tx.hash 0 tx.outputs ++ block_keys rest

  abbrev pub block_coins : List MultiEraTx → ℕ
  block_coins [] = 0
  block_coins (tx ∷ rest) = coins_from tx.outputs (block_coins rest)

  -- Every output has an address.
  abbrev pub HasAddresses : List MultiEraTx → Type 0
  HasAddresses =
      All (λ (tx : MultiEraTx). All (λ (o : MultiEraOutput). is_some o.address ≡ true) tx.outputs)

module _ ⦃X : Externals⦄ (R : Reliable X) (ks : List Text) (s0 : NetworkStorage)
    (i0 : RollbackInfo) where
  -- `m` succeeds on a block's work, and what it leaves is undoable.
  abbrev pub Leads :
      Exec Work ⊤ → NetworkStorage → BlockStats → RollbackInfo → List Text → ℕ → Type 0
  Leads m s st info pending coins =
      (s' : NetworkStorage) × (st' : BlockStats) × (info' : RollbackInfo) × Returns m
        (work s st info) tt (work s' st' info')
      × Progress R ks s0 i0 pending coins s' info'

  process_input-Leads :
      (at : At) (h : Bytes) (input : MultiEraInput) (pending : List Text) (coins : ℕ)
      (s : NetworkStorage) (st : BlockStats) (info : RollbackInfo)
      → Progress R ks s0 i0 pending coins s info
      → Leads (process_input at h input) s st info pending coins
  unfolding process_input
  process_input-Leads at h input pending coins s st info p =
      let k = utxo_key_of input.hash input.index in
      elim (Option-cases (R.find s.utxo_tree k)) [
        | inl absent ↦ (s, st, info, rw (Handle.Laws.get_utxo-new R s k, absent), p)
        | inr (d, there) ↦
            (let (s', st', e, x) = spend_utxo-work R at h k d s st info in
              (
                s',
                st',
                _,
                rw (Handle.Laws.get_utxo-new R s k, there) e,
                Spends-Progress R ks s0 i0 k d _ p there x (R.reread _, R.from_slice-written _),
              ))
      ]

  process_output-Leads :
      (at : At) (filter : WalletFilter) (h : Bytes) (idx : ℕ) (o : MultiEraOutput)
      (pending : List Text) (coins : ℕ) (s : NetworkStorage) (st : BlockStats) (info : RollbackInfo)
      → is_some o.address ≡ true
      → listed (utxo_key_of h idx) pending ≡ false
      → Progress R ks s0 i0 (utxo_key_of h idx ∷ pending) (o.coin + coins) s info
      → Leads (process_output at filter h idx o) s st info pending coins
  unfolding process_output
  process_output-Leads at filter h idx o pending coins s st info has fresh p =
      let k = utxo_key_of h idx in
      elim (Option-cases o.address) [
        | inl missing ↦ absurd (let e : is_some o.address ≡ false = rw missing in cc)
        | inr (address, here) ↦ elim (Bool-cases (is_tracked filter address)) [
          | inl tracked ↦
              (let a = X.hex_encode address in
                let (s', st', e, x) =
                  create_utxo-work R at h idx address o s st info (omega (arith, p.room a)) in
                (
                  s',
                  st',
                  _,
                  simp (here, tracked) e,
                  Creates-Progress R ks s0 i0 k _ o.coin coins p fresh x
                      (λ b q.
                        let same : a ≡ b = cc (owner-stored R at h idx address o) in
                        rw (← same) (hex-HasNoColon a (R.All-hex_encode address)))
                      (R.reread _, R.from_slice-written _)
                      (λ b. rw (worth-stored R at h idx address o b) (ground arith)),
                ))
          | inr skipped ↦
              (s, st, info, simp (here, skipped), skip-Progress R ks s0 i0 k o.coin coins p)
        ]
      ]

  -- One action after another.
  Leads-then :
      (m n : Exec Work ⊤) (s : NetworkStorage) (st : BlockStats) (info : RollbackInfo)
      (pending pending' : List Text) (coins coins' : ℕ)
      → Leads m s st info pending' coins'
      → ((s' : NetworkStorage) (st' : BlockStats) (info' : RollbackInfo)
          → Progress R ks s0 i0 pending' coins' s' info'
          → Leads n s' st' info' pending coins)
      → Leads (m >> n) s st info pending coins
  Leads-then m n s st info pending pending' coins coins' (s', st', info', e, p) k =
      let (s'', st'', info'', e', p') = k s' st' info' p in
      (s'', st'', info'', Returns-then m n e e', p')

  process_inputs-Leads :
      (at : At) (h : Bytes) (inputs : List MultiEraInput) (pending : List Text) (coins : ℕ)
      (s : NetworkStorage) (st : BlockStats) (info : RollbackInfo)
      → Progress R ks s0 i0 pending coins s info
      → Leads (for_each inputs (process_input at h)) s st info pending coins
  unfolding for_each
  process_inputs-Leads at h [] pending coins s st info p = (s, st, info, refl, p)
  process_inputs-Leads at h (i ∷ rest) pending coins s st info p =
      Leads-then (process_input at h i) (for_each rest (process_input at h)) s st info pending
        pending coins coins (process_input-Leads at h i pending coins s st info p)
        (process_inputs-Leads at h rest pending coins)

  process_outputs-Leads :
      (at : At) (filter : WalletFilter) (h : Bytes) (idx : ℕ) (outputs : List MultiEraOutput)
      (pending : List Text) (coins : ℕ) (s : NetworkStorage) (st : BlockStats) (info : RollbackInfo)
      → All (λ (o : MultiEraOutput). is_some o.address ≡ true) outputs
      → Distinct (output_keys h idx outputs ++ pending)
      → Progress R ks s0 i0 (output_keys h idx outputs ++ pending) (coins_from outputs coins) s info
      → Leads (process_outputs at filter h idx outputs) s st info pending coins
  unfolding process_outputs
  process_outputs-Leads at filter h idx [] pending coins s st info has d p = (s, st, info, refl, p)
  process_outputs-Leads at filter h idx (o ∷ rest) pending coins s st info has d p =
      Leads-then (process_output at filter h idx o) (process_outputs at filter h (idx + 1) rest) s
        st info pending (output_keys h (idx + 1) rest ++ pending) coins (coins_from rest coins)
        (process_output-Leads at filter h idx o (output_keys h (idx + 1) rest ++ pending)
          (coins_from rest coins) s st info has.0 d.0 p)
        (λ s' st' info' p'.
          process_outputs-Leads at filter h (idx + 1) rest pending coins s' st' info' has.1 d.1 p')

  histories-Leads :
      (m : Exec StorageManager ⊤) (pending : List Text) (coins : ℕ) (s : NetworkStorage)
      (st : BlockStats) (info : RollbackInfo)
      → WritesHistories R m
      → Progress R ks s0 i0 pending coins s info
      → Leads (ask m) s st info pending coins
  histories-Leads m pending coins s st info w p =
      let (a, b, c, e) = w.from s in (_, st, info, rw e, with_histories-Progress R ks s0 i0 a b c p)

  tokens-Leads :
      (b : Bool) (m : Exec StorageManager ⊤) (pending : List Text) (coins : ℕ) (s : NetworkStorage)
      (st : BlockStats) (info : RollbackInfo)
      → WritesHistories R m
      → Progress R ks s0 i0 pending coins s info
      → Leads (when b (ask m)) s st info pending coins
  tokens-Leads true m pending coins s st info w p = histories-Leads m pending coins s st info w p
  tokens-Leads false m pending coins s st info w p = (s, st, info, refl, p)

  process_transaction-Leads :
      (at : At) (filter : WalletFilter) (tokens : List TokenConfig) (tx : MultiEraTx)
      (pending : List Text) (coins : ℕ) (s : NetworkStorage) (st : BlockStats) (info : RollbackInfo)
      → All (λ (o : MultiEraOutput). is_some o.address ≡ true) tx.outputs
      → Distinct (output_keys tx.hash 0 tx.outputs ++ pending)
      → Progress R ks s0 i0
          (output_keys tx.hash 0 tx.outputs ++ pending)
          (coins_from tx.outputs coins)
          s
          info
      → Leads (process_transaction at filter tokens tx) s st info pending coins
  unfolding process_transaction extend_histories
  process_transaction-Leads at filter tokens tx pending coins s st info has d p =
      let keys = output_keys tx.hash 0 tx.outputs ++ pending in
      let n = coins_from tx.outputs coins in
      let tx_hash_hex = X.hex_encode tx.hash in
      let tokens_step =
        when (not (is_empty tokens))
          (ask (track_tokens_in_transaction tokens tx.outputs tx_hash_hex)) in
      let histories_step = extend_histories tx_hash_hex >> tokens_step in
      let outputs_step = process_outputs at filter tx.hash 0 tx.outputs >> histories_step in
      let st1 = record st { tx_count = st.tx_count + 1 } in
      Leads-then (for_each tx.inputs (process_input at tx.hash)) outputs_step s st1 info pending
        keys coins n (process_inputs-Leads at tx.hash tx.inputs keys n s st1 info p)
        λ s2 st2 info2 p2.
          Leads-then (process_outputs at filter tx.hash 0 tx.outputs) histories_step s2 st2 info2
            pending pending coins coins
            (process_outputs-Leads at filter tx.hash 0 tx.outputs pending coins s2 st2 info2 has d
              p2)
            λ s3 st3 info3 p3.
              Leads-then (extend_histories tx_hash_hex) tokens_step s3 st3 info3 pending pending
                coins coins
                (histories-Leads _ pending coins s3 st3 info3
                  (WritesHistories-for_each R st3.addresses_affected _
                    (λ a. add_tx_to_address_history-WritesHistories R a tx_hash_hex))
                  p3)
                λ s4 st4 info4 p4.
                  tokens-Leads (not (is_empty tokens)) _ pending coins s4 st4 info4
                    (track_tokens-WritesHistories R tokens tx.outputs tx_hash_hex) p4

  -- The transactions of a block whose keys are new succeed, and can be undone.
  pub process_transactions-Leads :
      (slot : ℕ) (block_hash : Bytes) (timestamp tx_index : ℕ) (filter : WalletFilter)
      (tokens : List TokenConfig) (txs : List MultiEraTx) (s : NetworkStorage) (st : BlockStats)
      (info : RollbackInfo)
      → HasAddresses txs
      → Distinct (block_keys txs)
      → Progress R ks s0 i0 (block_keys txs) (block_coins txs) s info
      → Leads
          (process_transactions slot block_hash timestamp tx_index filter tokens txs)
          s
          st
          info
          []
          0
  unfolding process_transactions
  process_transactions-Leads slot block_hash timestamp tx_index filter tokens [] s st info has d p =
      (s, st, info, refl, p)
  process_transactions-Leads slot block_hash timestamp tx_index filter tokens (tx ∷ rest) s st info
        has d p =
      let at : At = record {
        slot = slot;
        block_hash = block_hash;
        tx_index = tx_index;
        block_timestamp = timestamp;
      } in
      Leads-then (process_transaction at filter tokens tx)
        (process_transactions slot block_hash timestamp (tx_index + 1) filter tokens rest) s st info
        [] (block_keys rest) 0 (block_coins rest)
        (process_transaction-Leads at filter tokens tx (block_keys rest) (block_coins rest) s st
          info has.0 d p)
        (λ s' st' info' p'.
          process_transactions-Leads slot block_hash timestamp (tx_index + 1) filter tokens rest s'
            st' info' has.1 (Distinct-append (output_keys tx.hash 0 tx.outputs) (block_keys rest) d)
            p')
