-- ===== src/Queue/Replay.antt =====
-- What a replay on connect sends and deletes.
use repowire.Prelude.{
  String, Bool, ◌≡◌, Option, some, List, [], ◌∷◌, is_some, keep, map, if◌then◌else◌,
}
use repowire.Queue.Store.{QueuedDelivery, Table, id_of}
use repowire.Queue.Rows.{outside}
use repowire.Queue.Flush.{DeliveryFrame, frame_for}

abbrev pub take_while {ℓ} : {A : Type ℓ} → (A → Bool) → List A → List A
take_while f [] = []
take_while f (x ∷ xs) = if f x then x ∷ take_while f xs else []

abbrev pub frame_of : String → QueuedDelivery → Option DeliveryFrame
frame_of to_name d = frame_for to_name d d.kind

-- The rows that go out: of those with a frame, the ones before the first that fails.
abbrev pub sent_rows : (QueuedDelivery → Bool) → String → List QueuedDelivery → List QueuedDelivery
sent_rows written to_name ds = take_while written (keep (λ d. is_some (frame_of to_name d)) ds)

-- The frames are those of the rows, and the table has lost exactly these rows.
abbrev pub Sent : String → List QueuedDelivery → Table → List DeliveryFrame × Table → Type 0
Sent to_name gone t (frames, after) =
    (map some frames ≡ map (frame_of to_name) gone) × (after ≡ keep (outside (map id_of gone)) t)
