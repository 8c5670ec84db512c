-- ===== src/Tests/Containers.antt =====
-- A ring of two places.

use cppnet.Prelude.{[], arith, ℕ, ◌∷◌, ◌≡◌}
use cppnet.Prelude.Memory.{done}
use cppnet.Util.RingBuffer.{RingBuffer, capacity, init}
use cppnet.Util.RingBuffer.Window.{Holds}
use cppnet.Util.RingBuffer.Refine.{init-Holds, push-Holds}
use cppnet.Util.RingBuffer.Runs.{put, take_one, look, serve, serve_queue, serve-serve_queue}

abbrev ring : RingBuffer ℕ
ring = init 2 0

ring-Holds : Holds ring []
ring-Holds = init-Holds 2 0 (omega arith)

abbrev holding_one : RingBuffer ℕ
holding_one = (push-Holds ring [] 5 ring-Holds).0

holding_one-Holds : Holds holding_one (5 ∷ [])
unfolding init
holding_one-Holds = (push-Holds ring [] 5 ring-Holds).2

serve-serve_queue_example :
    serve ring (take_one ∷ put 1 ∷ put 2 ∷ put 3 ∷ take_one ∷ look 0 ∷ look 5 ∷ [])
    ≡ done (
        serve_queue
          (capacity ring)
          []
          (take_one ∷ put 1 ∷ put 2 ∷ put 3 ∷ take_one ∷ look 0 ∷ look 5 ∷ []))
serve-serve_queue_example =
    serve-serve_queue ring [] (take_one ∷ put 1 ∷ put 2 ∷ put 3 ∷ take_one ∷ look 0 ∷ look 5 ∷ [])
      ring-Holds
