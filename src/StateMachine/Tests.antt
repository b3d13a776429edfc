-- ===== src/StateMachine/Tests.antt =====
-- The theorems on the state machine, over an association list.
use replicated_splinterdb.Base.{ℕ, ◌≡◌, refl, true, false, none, some, [], ◌∷◌, pos, ok, arith}
use replicated_splinterdb.Nuraft.Sample.{sample, PlainBuffer}
use replicated_splinterdb.SplinterDb.Sample.{sample_db, PlainDb}
use replicated_splinterdb.Operation.{SplinterdbOperation, put, delete, deserialize}
use replicated_splinterdb.Operation.RoundTrip.{serialized, deserialize-serialized}
use replicated_splinterdb.StateMachine.{SplinterdbStateMachine, commit}
use replicated_splinterdb.StateMachine.Commit.{effect, reply_buffer, commit-effect}
use replicated_splinterdb.StateMachine.Replicas.{Log, IsLog, Succeeds}

abbrev Machine : Type 0
Machine = SplinterdbStateMachine PlainDb ℕ

abbrev fresh : Machine
fresh = record {
  spl_handle = [];
  last_committed_idx = 0;
  commit_thread_initialized = false;
  snapshots = [];
  disable_snapshots = true;
}

abbrev one_put : SplinterdbOperation
one_put = record { key = 107 ∷ []; value = some (118 ∷ []); type = put }

abbrev one_delete : SplinterdbOperation
one_delete = record { key = 107 ∷ []; value = none; type = delete }

abbrev put_buffer : PlainBuffer
put_buffer = serialized sample one_put

put_buffer_lem : deserialize sample put_buffer ≡ ok one_put
put_buffer_lem = deserialize-serialized sample one_put tt (omega arith)

commit-effect_example :
    ((commit sample sample_db 3 put_buffer fresh).0 ≡ ok (reply_buffer sample (pos 0)))
    × ((commit sample sample_db 3 put_buffer fresh).1.last_committed_idx ≡ 3)
    × (sample_db.view (commit sample sample_db 3 put_buffer fresh).1.spl_handle
        ≡ effect sample_db one_put.type one_put.key one_put.value (sample_db.view fresh.spl_handle))
commit-effect_example =
    commit-effect sample sample_db 3 put_buffer one_put fresh put_buffer_lem tt refl

abbrev put_then_delete : Log
put_then_delete = (1, one_put) ∷ (2, one_delete) ∷ []

put_then_delete-IsLog : IsLog put_then_delete
put_then_delete-IsLog = ((tt, omega arith), ((tt, omega arith), tt))

put_then_delete-Succeeds : (s : Machine) → Succeeds sample sample_db put_then_delete s
put_then_delete-Succeeds s = (refl, (refl, tt))

-- A replica whose commit thread is registered already.
abbrev running : Machine
running = record fresh { commit_thread_initialized = true }

-- A put of the empty key, which the store refuses.
abbrev refused_put : SplinterdbOperation
refused_put = record { key = []; value = some []; type = put }
