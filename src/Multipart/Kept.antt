-- ===== src/Multipart/Kept.antt =====
-- otasker/oraparsemultipart.go: the rule for invariants of the loop of ReadFormEx.
use iplsgo.Prelude.{Str}
use iplsgo.Multipart.{
  Part, Message, eof, failed, part, System, Reading, Outcome, went, stopped, read_part, read_parts,
}

-- `P` holds while the loop goes on, and `Q` when an error ends it.
module _ (P : Reading → Type 0) (Q : Str → Reading → Type 0) where
  abbrev pub Keeps : Outcome → Type 0
  Keeps (went s) = P s
  Keeps (stopped e s) = Q e s

  module _ (o : System) (step : (p : Part) (s : Reading) → P s → Keeps (read_part o p s))
      (leave : (e : Str) (s : Reading) → P s → Q e s) where
    -- By the loop's outcome for the rest of the message.
    passed :
        (rest : Message) (r : Outcome)
        → Keeps r
        → ((s : Reading) → P s → Keeps (read_parts o rest s))
        → Keeps (elim r [ went t ↦ read_parts o rest t | stopped e t ↦ stopped e t ])
    passed rest (went t) h k = k t h
    passed rest (stopped e t) h k = h

    pub read_parts_inv : (m : Message) (s : Reading) → P s → Keeps (read_parts o m s)
    unfolding read_parts
    read_parts_inv eof s h = h
    read_parts_inv (failed e) s h = leave e s h
    read_parts_inv (part p rest) s h =
        passed rest (read_part o p s) (step p s h) (λ t. read_parts_inv rest t)
