-- ===== src/Tests/Requests.antt =====
-- The requests of the REST interface.
use Prim.Native.String.{count}
use digital_rooster_gui.Base.{
  ℕ, ◌≡◌, ◌<◌, ◌^◌, ltb, if◌then◌else◌, String, [], ◌∷◌, List, Option, some, none, arith,
}
use digital_rooster_gui.Base.Int.{pos}
use digital_rooster_gui.Rest.{Stoi, number, out_of_range}
use digital_rooster_gui.Rest.Pages.{read_pages, read_pages_whole}
use digital_rooster_gui.Alarm.{to_json_object}
use digital_rooster_gui.Wiring.Stores.{Clock, steps, started, Follows, started-Follows}
use digital_rooster_gui.Wiring.Remote.{remotes, remotes-Follows}
use digital_rooster_gui.Tests.Alarms.{friday_eight}
use digital_rooster_gui.Podcast.Icon.{Files}
use digital_rooster_gui.Rest.Server.{Call, radios, add, get_one, Server, alarms, delete_one, serve}
use digital_rooster_gui.Rest.Server.Frame.{Kept, serve-Kept}
use digital_rooster_gui.Tests.Instances.{utc, Object, pairs, tallies, tally, count-tally}
use digital_rooster_gui.Tests.Feeds.{dates, no_files}
use digital_rooster_gui.Tests.Settings.{loaded, extra}

abbrev length_of : String → Stoi
length_of s = if ltb (count s) (2 ^ 31) then number (pos (count s)) else out_of_range

abbrev letters : List String
letters = "a" ∷ "b" ∷ "c" ∷ "d" ∷ []

length_of-tally : (m : ℕ) → m < 2 ^ 31 → length_of (tally m) ≡ number (pos m)
length_of-tally m h = rw (count-tally m) (ground (arith, h))

-- Pages of three.
read_pages_whole_example : read_pages length_of tally 5 letters 0 3 ≡ some letters
read_pages_whole_example =
    read_pages_whole length_of tally letters 2 5 length_of-tally (omega arith) (omega arith)

abbrev no_body : String → Option Object
no_body body = none

abbrev server : Server ℕ
server = record { files = no_files; stores = loaded }

serve-Kept_example :
    Kept
      (alarms (delete_one "a"))
      server
      (serve pairs tallies dates length_of no_body server (alarms (delete_one "a"))).0
serve-Kept_example =
    serve-Kept pairs tallies dates length_of no_body server (alarms (delete_one "a"))

abbrev always_extra : String → Option Object
always_extra body = some (to_json_object pairs tallies extra)

-- An alarm is added and another deleted.
abbrev some_requests : List Call
some_requests = alarms (add "{}" "new") ∷ radios (get_one "a") ∷ alarms (delete_one "a") ∷ []

abbrev at_start : Files × Clock ℕ
at_start = (no_files, started utc friday_eight loaded)

at_start-Follows : Follows utc friday_eight at_start.1
unfolding steps
at_start-Follows = started-Follows utc friday_eight loaded []

remotes-Follows_example :
    Follows utc friday_eight
      (remotes pairs tallies dates length_of always_extra utc friday_eight at_start some_requests).1
remotes-Follows_example =
    remotes-Follows pairs tallies dates length_of always_extra utc friday_eight at_start
      some_requests at_start-Follows
