-- ===== src/Tests/Control.antt =====
-- A request on the control socket.
use minicontainer.Base.{◌≡◌, refl, true, none, some, codes}
use minicontainer.Linux.Control.{to_init, Connection, requested_signal, handle_control}
use minicontainer.Linux.Answered.{IsAnswered, handle_control-IsAnswered}
use minicontainer.Tests.Json.{trees, Tree, str, num, empty, member, member_of}

abbrev request : Tree
request =
    member (codes "version") (num 1)
      (member (codes "operation") (str (codes "signal")) (member (codes "signal") (num 15) empty))

abbrev connection : Connection trees
connection = record {
  accepted = true;
  request = some request;
  peer = some 0;
  kills = true;
  signals = λ number. true;
  sends = true;
}

handle_control-IsAnswered_example :
    IsAnswered trees connection true (codes "web") (handle_control trees connection true)
handle_control-IsAnswered_example = handle_control-IsAnswered trees connection true (codes "web")

terminated : (handle_control trees connection true).0 ≡ some (to_init 15)
unfolding handle_control requested_signal member_of
terminated = refl

-- Another user is refused.
refused : (handle_control trees (record connection { peer = some 1000 }) true).0 ≡ none
unfolding handle_control
refused = refl
