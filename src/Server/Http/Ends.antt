-- ===== src/Server/Http/Ends.antt =====
-- How the HTTP server starts and ends (libs/server/server_http.go, backend_http.go).
use top_lib.Prelude.{Bool, true, false, not, Option, none, some, ◌≡◌, ◌↔◌, arith, if◌then◌else◌}

-- What becomes of a call: it returns an error or none, or the logger's Fatal ends the program.
pub data Ended (E : Type 0) : Type 0 where
  returned : Option E → Ended E
  exited : Ended E

-- errors.Is(err, http.ErrServerClosed)
module _ {E : Type 0} (is_server_closed : E → Bool) where
  -- Startup, by what engine.Start gives.
  unfoldable pub startup : Option E → Ended E
  startup none = returned none
  startup (some err) = if not (is_server_closed err) then exited else returned none

  -- The goroutine of StartWithGracefulShutdown, by what engine.Start gives.
  unfoldable pub serving : Option E → Ended E
  serving none = returned none
  serving (some err) = if is_server_closed err then exited else returned none

  -- WaitForShutdown after its signal, and GracefulStop: the error of Shutdown.
  unfoldable pub wait_for_shutdown : Option E → Ended E
  wait_for_shutdown err = returned err

  -- Startup ends the program on an error of the listener, and on a server that is closed it returns;
  -- the goroutine of StartWithGracefulShutdown does the opposite: it ends the program when the server
  -- is closed in order, and an error of the listener goes by.
  pub startup-serving :
      (err : E)
      → ((startup (some err) ≡ exited) ↔ (is_server_closed err ≡ false))
        × ((serving (some err) ≡ exited) ↔ (is_server_closed err ≡ true))
        × ((serving (some err) ≡ returned none) ↔ (is_server_closed err ≡ false))
  unfolding startup serving
  startup-serving err = ground arith
