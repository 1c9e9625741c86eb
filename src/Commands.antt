-- ===== src/Commands.antt =====
-- How commands end: `cmd.Run` of `os/exec`, and `commandWasCancelled` of pkg/transcribe.go.
use radio_chatter.Common.{Bool, false}
use radio_chatter.Common.Int.{ℤ, pos, negsuc}

-- What `cmd.Run` returns: an `*exec.ExitError` with its exit code, which is negative after a signal,
-- or another error.
pub data RunError (E : Type 0) : Type 0 where
  exited : ℤ → E → RunError E
  not_run : E → RunError E

-- `commandWasCancelled`: the context is done, and the command was stopped by a signal.
abbrev pub command_was_cancelled : {E : Type 0} → Bool → RunError E → Bool
command_was_cancelled done (not_run e) = false
command_was_cancelled done (exited (pos code) e) = false
command_was_cancelled done (exited (negsuc code) e) = done
