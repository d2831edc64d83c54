-- ===== src/Mqtt/Text.antt =====
-- Texts by their characters: code points, and the `split("/")[-1]` and `strip()` of the handlers in
-- collector/mqtt_commands.py, on ASCII texts.
use Prim.Native.String.{String, [], ◌∷◌, ◌++◌}
use Prim.Native.Char.{code}
use mathlib.Core.List
use lux_mon.Base.{if◌then◌else◌, ◌==◌}
use lux_mon.Protocol.Frame.{Str}
use lux_mon.Automation.Clock.{is_space}

-- The code points of a text.
unfoldable pub codes : String → Str
codes [] = List.[]
codes (c ∷ s) = List.◌∷◌ (code c) (codes s)

-- `topic.split("/")[-1]`, with what stands since the last `/`.
unfoldable pub segment_from : String → String → String
segment_from current [] = current
segment_from current (c ∷ s) = segment_from (if code c == 47 then [] else current ++ (c ∷ [])) s

unfoldable pub last_segment : String → String
last_segment topic = segment_from [] topic

-- `payload.strip()`
unfoldable pub strip_left : String → String
strip_left [] = []
strip_left (c ∷ s) = let rest = strip_left s in if is_space (code c) then rest else c ∷ s

unfoldable pub turned : String → String → String
turned [] done = done
turned (c ∷ s) done = turned s (c ∷ done)

unfoldable pub strip_text : String → String
strip_text s = turned (strip_left (turned (strip_left s) [])) []
