-- ===== src/Engine/Tests.antt =====
-- Small runs of the library.
use unix_ipc.Prelude.{◌≡◌, some, true, [], ◌∷◌, arith}
use unix_ipc.Sys.{ok, ◌>>=◌}
use unix_ipc.Sys.Replay.{replay}
use unix_ipc.Engine.Buffer
use unix_ipc.Engine.Buffer.{Buffer, static_buffer, dynamic_buffer, copy}
use unix_ipc.Engine.Buffer.Copy.{copy_lem, read-write}

-- Two bytes written into a static buffer of four.
abbrev two_written : Buffer
two_written = record { size_ = 0; capacity_ = 4; is_good_ = true; array = 1 ∷ 2 ∷ 0 ∷ 0 ∷ [] }

copy_lem_example : copy (1 ∷ 2 ∷ 3 ∷ []) (7 ∷ 8 ∷ 9 ∷ []) 2 ≡ some (1 ∷ 2 ∷ 9 ∷ [])
copy_lem_example = copy_lem 2 (1 ∷ 2 ∷ 3 ∷ []) (7 ∷ 8 ∷ 9 ∷ [])

read-write_example :
    (Buffer.write two_written (5 ∷ 6 ∷ 7 ∷ []) 3 >>= λ w. Buffer.read w (0 ∷ 0 ∷ 0 ∷ 9 ∷ []) 3)
      (replay [])
      []
    ≡ (ok (5 ∷ 6 ∷ 7 ∷ 9 ∷ []), [])
read-write_example =
    read-write two_written (5 ∷ 6 ∷ 7 ∷ []) (0 ∷ 0 ∷ 0 ∷ 9 ∷ []) 3 (replay []) [] (omega arith)
      (omega arith) (omega arith) (omega arith) (omega arith)
