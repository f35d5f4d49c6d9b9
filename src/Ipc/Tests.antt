-- ===== src/Ipc/Tests.antt =====
-- A stream of two frames, and a run of a hub.
use iron_link.Prelude.{ℕ, ◌≡◌, refl, sym, some, List, [], ◌∷◌, ◌++◌, ok}
use iron_link.Ipc.Codec.{write_frames, write_frame, put_uint32, read_frames}
use iron_link.Ipc.Codec.RoundTrip.{read_frames-write_frames}
use iron_link.Ipc.Hub.{Hub, new_hub, subscribe, broadcast, cancel, offer}
use iron_link.Ipc.Hub.Bounded.{Reach, IsTidy, Reach-IsTidy}

-- A message is its bytes.
abbrev messages : List (List ℕ)
messages = (123 ∷ 125 ∷ []) ∷ [] ∷ []

abbrev written_bytes : List ℕ
written_bytes = 0 ∷ 0 ∷ 0 ∷ 2 ∷ 123 ∷ 125 ∷ 0 ∷ 0 ∷ 0 ∷ 0 ∷ []

written : write_frames {V = List ℕ} (λ v. some v) messages ≡ ok written_bytes
unfolding write_frames write_frame put_uint32
written = refl

read_frames-write_frames_example :
    read_frames {V = List ℕ} (λ b. some b) 2 (written_bytes ++ 7 ∷ []) ≡ ok (messages, 7 ∷ [])
read_frames-write_frames_example =
    read_frames-write_frames (λ v. some v) (λ b. some b) (λ v body e. sym e) messages written_bytes
      (7 ∷ []) written

a_run : Reach ℕ (cancel ℕ 0 (broadcast ℕ 5 (subscribe ℕ (subscribe ℕ (new_hub ℕ)).0).0))
a_run =
    Reach.on_cancel (Reach.on_broadcast (Reach.on_subscribe (Reach.on_subscribe Reach.start)) 5) 0

abbrev one_left : Hub ℕ
one_left = record { subs = (record { id = 1; queue = 5 ∷ [] }) ∷ []; next = 2 }

Reach-IsTidy_example : IsTidy ℕ one_left.next one_left.subs
unfolding subscribe cancel broadcast offer
Reach-IsTidy_example = Reach-IsTidy ℕ a_run
