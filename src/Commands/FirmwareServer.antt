-- ===== src/Commands/FirmwareServer.antt =====
-- cmd/firmware-server/main.go, which serves the images of a directory.
use edge_fleet_operator_demo.Base.{ℕ, String}

pub record Flags : Type 0 where
  pub dir : String
  pub addr : String

-- The flags that are not given.
abbrev default_flags : Flags
default_flags = record { dir = "."; addr = ":8000" }

-- net/http: what ListenAndServe with a FileServer of the directory does until it returns, which it
-- does with an error alone.
pub record Listener : Type 1 where
  pub World : Type 0
  pub listen_and_serve : String → String → World → World

-- main, with the exit code of log.Fatal.
abbrev firmware_server_main : (L : Listener) → Flags → L.World → ℕ × L.World
firmware_server_main L flags w = (1, L.listen_and_serve flags.addr flags.dir w)
