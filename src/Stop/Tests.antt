-- ===== src/Stop/Tests.antt =====
-- Runs of the stop buffer.
use Prim.Native.Char.{code}
use Prim.Native.String.{String}
use inferq.Prelude.{◌≡◌, refl, some, false, List, [], ◌∷◌}
use inferq.Stop.{Bytes, new, push, StopBuffer, nonempty_stops, is_continuation}
use inferq.Stop.Stream.{feed, search_all, feed-new}

abbrev codes : String → Bytes
codes String.[] = []
codes (String.◌∷◌ c s) = code c ∷ codes s

abbrev ends : StopBuffer
ends = record { stops = codes "END" ∷ []; held = [] }

partial_is_held :
    push ends (codes "go EN")
    ≡ some (record { emit = codes "go "; matched = false }, record ends { held = codes "EN" })
unfolding push
partial_is_held = refl

abbrev stops : List Bytes
stops = codes "END" ∷ codes "" ∷ codes "stop" ∷ []

abbrev chunks : List Bytes
chunks = codes "go E" ∷ codes "N st" ∷ codes "op now" ∷ []

feed-new_example : feed (new stops) chunks ≡ some (search_all (nonempty_stops stops) [] chunks)
unfolding is_continuation
feed-new_example = feed-new stops chunks (refl, (tt, (refl, tt))) (refl, (refl, (refl, tt)))
