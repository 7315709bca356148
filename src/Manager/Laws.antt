-- ===== src/Manager/Laws.antt =====
-- The life of the storage manager: the end of the task, and the storage away and back.
use hayate.Prelude.{
  All, map, Option, ◌≡◌, refl, true, none, some, List, [], ◌∷◌, ◌++◌, Bool-cases, inl, inr,
}
use hayate.Result.{err, storage_not_available}
use hayate.Externals.{Externals}
use hayate.Storage.State.{NetworkStorage}
use hayate.Manager.{Request, Response, StorageManager, execute, handle_command, run}

module _ ⦃X : Externals⦄ where
  -- A shutdown is the last request that is served: the replies and the manager are the same
  -- whatever requests stand behind it in the channel.
  pub run-shutdown :
      (before after : List Request) (m : StorageManager)
      → run (before ++ Request.shutdown ∷ after) m ≡ run (before ++ Request.shutdown ∷ []) m
  unfolding run handle_command
  run-shutdown [] after m = refl
  run-shutdown (r ∷ before) after m =
      let m' = (handle_command r m).1 in
      elim (Bool-cases m'.running) [
        | inl goes ↦ rw (goes, run-shutdown before after m')
        | inr ends ↦ rw ends
      ]

  -- Requests that a manager without its storage refuses.
  abbrev pub IsRefused : Request → Type 0
  IsRefused (Request.command c) = Unit
  IsRefused Request.take_storage = Unit
  IsRefused (Request.return_storage s) = ⊥
  IsRefused Request.shutdown = ⊥

  abbrev pub refusal : Request → Response
  refusal (Request.command {A} c) = Response.reply {A = A} (err storage_not_available)
  refusal Request.take_storage = Response.taken none
  refusal (Request.return_storage s) = Response.no_reply
  refusal Request.shutdown = Response.stopped

  abbrev pub holding : Option NetworkStorage → StorageManager
  holding storage = record { storage = storage; running = true }

  run-away :
      (between rest : List Request) (s : NetworkStorage)
      → All IsRefused between
      → run (between ++ Request.return_storage s ∷ rest) (holding none) ≡ (
        map refusal between ++ Response.no_reply ∷ (run rest (holding (some s))).0,
        (run rest (holding (some s))).1,
      )
  unfolding run handle_command execute
  run-away [] rest s h = refl
  run-away (Request.command c ∷ between) rest s (_, h) = rw (run-away between rest s h)
  run-away (Request.take_storage ∷ between) rest s (_, h) = rw (run-away between rest s h)
  run-away (Request.return_storage x ∷ between) rest s (h, _) = absurd h
  run-away (Request.shutdown ∷ between) rest s (h, _) = absurd h

  -- A storage that is taken is handed over whole. Until a storage is returned every command is
  -- answered with the error that it is not available and taking it again gives none. The requests
  -- after the return are served as if the task had had the returned storage all along.
  pub run-take_storage :
      (s s' : NetworkStorage) (between rest : List Request)
      → All IsRefused between
      → run (Request.take_storage ∷ between ++ Request.return_storage s' ∷ rest) (holding (some s))
        ≡ (
          Response.taken (some s) ∷ map refusal between
              ++ Response.no_reply ∷ (run rest (holding (some s'))).0,
          (run rest (holding (some s'))).1,
        )
  unfolding run handle_command
  run-take_storage s s' between rest h = rw (run-away between rest s' h)
