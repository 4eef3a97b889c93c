-- ===== src/Process/Worker/Codes.antt =====
-- src/process/mod.rs and src/main.rs: from the exit status of a script to the status of its task.
use command_api.Prelude.{
  ℤ, pos, negsuc, refl, Bool, true, false, ◌≡◌, Option, none, some, if◌then◌else◌, arith,
}
use command_api.Model.{succeeded, StopReason}
use command_api.Process.Run.{ExitStatus, final_status}
use command_api.Process.Worker.{worker_exit}

-- A negative exit code of a script that nobody asked to stop.
abbrev pub ends_negative : Option StopReason → Option ℤ → Bool
ends_negative none (some (negsuc n)) = true
ends_negative _ _ = false

by_code :
    (reason : Option StopReason) (c : Option ℤ)
    → final_status reason (worker_exit (record { code = c }))
      ≡ (if ends_negative reason c then succeeded else final_status reason (record { code = c }))
unfolding worker_exit final_status
by_code none none = refl
by_code none (some (pos n)) = ground arith
by_code none (some (negsuc n)) = refl
by_code (some reason) c = ground arith

-- The status that the service gives a task, from what it sees of the worker's exit, is the one that
-- the exit status of the script itself calls for, with one exception: a script that ends by itself
-- with a negative exit code, as a crash has on Windows, makes its task `succeeded`.
pub worker_exit-final_status :
    (reason : Option StopReason) (e : ExitStatus)
    → final_status reason (worker_exit e)
      ≡ (if ends_negative reason e.code then succeeded else final_status reason e)
worker_exit-final_status reason e = by_code reason e.code
