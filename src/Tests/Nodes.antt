-- ===== src/Tests/Nodes.antt =====
-- Examples for capacitor.go and transport.go: what a node makes of connections and entries.
use capacitor.Prelude.{
  ℕ, ◌≡◌, ◌≢◌, refl, true, false, arith, none, some, [], ◌∷◌, ◌++◌, text_eq, codes, ℤ, pos, ◌+ℤ◌,
  wrap64, ap,
}
use capacitor.Hlc.{update, clock_smash}
use capacitor.Log.Entry.{LogEntry}
use capacitor.Node.{Node, Readings}
use capacitor.Node.Remote.{Batch, Handshake, handle_conn}
use capacitor.Node.Remote.Auth.{HasToken, handle_conn_locked, handle_conn_wrong}
use capacitor.Tests.Fixtures.{plain, new_node, at_time, entry_of}
use capacitor.Tests.Logs.{one_log}

abbrev node : Node plain
node = new_node one_log

abbrev clocks : ℕ → ℤ × ℤ
clocks i = (pos 100, pos 91)

-- A batch without a handshake, and one with a wrong token.
abbrev bare : Batch
bare = record { from_node = codes "B"; entries = (1 ∷ 7 ∷ []) ∷ []; handshake = none }

abbrev wrong : Handshake
wrong = record { last_seen_seq = 0; auth_token = codes "guess" }

abbrev guess : Batch
guess = record { from_node = codes "B"; entries = []; handshake = some wrong }

bare-lacks : ¬ HasToken plain node.auth_token bare
bare-lacks (h, e, t) = ground (arith, e)

has_secret : codes "secret" ≢ []
has_secret e = let l = ap (λ t. text_eq t []) e in (unfold text_eq in ground (arith, l))

guess_wrong : codes "guess" ≢ codes "secret"
guess_wrong e =
    let l = ap (λ t. text_eq t (codes "secret")) e in (unfold text_eq in ground (arith, l))

handle_conn_locked_example :
    handle_conn plain node true ((clocks, bare) ∷ (clocks, guess) ∷ []) ≡ node
handle_conn_locked_example =
    handle_conn_locked plain node clocks bare ((clocks, guess) ∷ []) has_secret bare-lacks

handle_conn_wrong_example :
    handle_conn plain node false (((clocks, bare) ∷ []) ++ (clocks, guess) ∷ [])
    ≡ handle_conn plain node false ((clocks, bare) ∷ [])
handle_conn_wrong_example =
    handle_conn_wrong plain node false ((clocks, bare) ∷ []) [] clocks guess wrong has_secret refl
      guess_wrong

abbrev late : LogEntry ℤ
late = record (entry_of 5 (0 ∷ 7 ∷ [])) { ts = at_time 900 0 }

abbrev readings : Readings
readings = record { start = pos 80; wall = pos 81; born = pos 82; finish = pos 83 }

abbrev welcome : Handshake
welcome = record { last_seen_seq = 0; auth_token = codes "secret" }

abbrev zero_readings : Readings
zero_readings = record { start = pos 0; wall = pos 0; born = pos 0; finish = pos 0 }

accepted_now : (update (pos 91) node.hlc (at_time 100 0)).1 ≢ clock_smash
unfolding update wrap64 ◌+ℤ◌
accepted_now e = ground (arith, e)
