-- ===== src/Tests/Lock.antt =====
-- The end of a round of src/runtime.rs at concrete inputs.
use command_api.Prelude.{◌≡◌, refl, Bool, true, bytes, some, [], ◌∷◌, err, arith, text_eq}
use command_api.Store.Open.{already_locked}
use command_api.Runtime.{not_opened, run_rounds}
use command_api.Runtime.Lock.{opened, Holders, at_work, Reachable}
use command_api.Runtime.Lock.Race.{with_lock, restart_locked_out}
use command_api.Tests.Samples.{write_line, read_line, parse_time}
use command_api.Tests.Resolve.{left}
use command_api.Tests.Runtime.{busy, pem, before, first_round, last_round}

same_directory : text_eq left.logging.directory left.logging.directory ≡ true
unfolding text_eq
same_directory = refl

restart_locked_out_example :
    (h : Holders) × (locked : Bool) × Reachable busy h
    × (h.phase ≡ opened locked)
    × (at_work h.executors ≡ 0)
    × (run_rounds
          (write_line (bytes "{}"))
          (read_line (bytes "{}") before)
          parse_time
          pem
          left.logging.directory
          left
          []
          (with_lock locked first_round ∷ last_round ∷ [])
        ≡ some (err (not_opened already_locked)))
restart_locked_out_example =
    restart_locked_out (write_line (bytes "{}")) (read_line (bytes "{}") before) parse_time pem busy
      left.logging.directory left [] first_round (last_round ∷ []) (omega arith) (omega arith)
      same_directory refl refl
