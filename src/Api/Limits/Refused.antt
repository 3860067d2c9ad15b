-- ===== src/Api/Limits/Refused.antt =====
-- What the client sees of an application behind the cap.
use growtrics_challenge.Common.{ℕ, ◌≡◌, ◌≢◌, ◌⊎◌, false, List, [], ◌∷◌, All}
use growtrics_challenge.Api.Limits.{Message, Event, End, Counting, rejection}
use growtrics_challenge.Api.Limits.Capped.{replies, IsMessage}

module _ (max_bytes : ℕ) (incoming : ℕ → Message) where
  abbrev start : Counting
  start = record { counted = 0; exceeded = false; answered = false }

  -- Behind a cap that is reached: the refusal is the answer, unless the application had begun one or
  -- raised an exception of its own.
  abbrev pub Refused : List Event × End → Type 0
  Refused (events, end) =
      ((replies events ≡ rejection max_bytes ∷ []) × (end ≡ End.returned))
      ⊎ ((replies events ≢ []) × All IsMessage (replies events))
      ⊎ ((replies events ≡ []) × (end ≡ End.failed))
