-- ===== src/Client/States.antt =====
-- The connection of src/chronos_client.c as a state machine.
use chronos_prototype.Base.{
  ℕ, ◌≡◌, inl, inr, refl, subst, ap, ◌∙◌, ◌==◌, true, false, Option, none, some, List, [], ◌∷◌,
  arith, Text, Bool-cases, Option-cases,
}
use chronos_prototype.Base.Int.{pos}
use chronos_prototype.Client.{
  Connection, Outcome, success, failed, waiting, crashed, is_connected, Network, establish, fd_of,
  settle, named, client_connect, client_disconnect, conn_handle_alloc,
}

-- The handles that calls of the client can make, with what the network gave each connect, the last
-- one first.
pub data Reachable : List Network → Connection → Type 0 where
  allocated : (c : Connection) → conn_handle_alloc true true ≡ some c → Reachable [] c
  connecting :
      {nets : List Network} {c : Connection} (c' : Connection) (address : Option Text) (port : ℕ)
      (name : Option Text) (net : Network)
      → Reachable nets c
      → (client_connect address port name (some c) net).1 ≡ some c'
      → Reachable (net ∷ nets) c'
  disconnecting :
      {nets : List Network} {c : Connection} (c' : Connection)
      → Reachable nets c
      → (client_disconnect (some c)).1 ≡ some c'
      → Reachable nets c'

-- The network gave this descriptor for a socket, and the connection on it succeeded.
abbrev pub Gives : ℕ → Network → Type 0
Gives fd net = (net.socket ≡ some fd) × (establish net ≡ success)

pub data GivenBy (fd : ℕ) : List Network → Type 0 where
  latest : {net : Network} {nets : List Network} → Gives fd net → GivenBy fd (net ∷ nets)
  earlier : {net : Network} {nets : List Network} → GivenBy fd nets → GivenBy fd (net ∷ nets)

-- A handle in the connected state has the socket of a connect that succeeded.
abbrev pub HasSocket : List Network → Connection → Type 0
HasSocket nets c = is_connected c ≡ true → (fd : ℕ) × (c.socket_fd ≡ pos fd) × GivenBy fd nets

establish-socket : (net : Network) → establish net ≡ success → (fd : ℕ) × (net.socket ≡ some fd)
unfolding establish
establish-socket net h = elim (Option-cases net.socket) [
  | inl e ↦ absurd (ground (arith, e))
  | inr f ↦ f
]

named-is_connected :
    (a : Text) (port : ℕ) (name : Option Text) (c : Connection)
    → is_connected (named a port name c) ≡ is_connected c
named-is_connected a port none c = refl
named-is_connected a port (some name) c = refl

settle-HasSocket :
    (o : Outcome) (net : Network) (nets : List Network) (c : Connection)
    → is_connected c ≡ false
    → establish net ≡ o
    → HasSocket (net ∷ nets) (settle o net.socket c).1
settle-HasSocket success net nets c d s h =
    let (f, e) = establish-socket net s in (f, ap fd_of e, latest (e, s))
settle-HasSocket failed net nets c d s h = absurd (ground arith)
settle-HasSocket waiting net nets c d s h = absurd (ground arith)
settle-HasSocket crashed net nets c d s h = absurd (ground arith)

abbrev Leaves : List Network → Option Connection → Type 0
Leaves nets none = Unit {0}
Leaves nets (some c) = HasSocket nets c

later :
    (net : Network) (nets : List Network) (c : Connection)
    → HasSocket nets c
    → HasSocket (net ∷ nets) c
later net nets c v h = let (fd, e, g) = v h in (fd, e, earlier g)

client_connect-Leaves :
    (address : Option Text) (port : ℕ) (name : Option Text) (c : Connection) (net : Network)
    (nets : List Network)
    → HasSocket nets c
    → Leaves (net ∷ nets) (client_connect address port name (some c) net).1
unfolding client_connect
client_connect-Leaves none port name c net nets v = later net nets c v
client_connect-Leaves (some a) port name c net nets v = elim (Bool-cases (port == 0)) [
  | inl z ↦ rw z (later net nets c v)
  | inr z ↦ elim (Bool-cases (is_connected c)) [
    | inl u ↦ rw (z, u) (λ h. absurd (ground arith))
    | inr u ↦
        rw (z, u)
          (settle-HasSocket (establish net) net nets (named a port name c)
            (named-is_connected a port name c ∙ u) refl)
  ]
]

client_disconnect-HasSocket :
    (nets : List Network) (c c' : Connection)
    → (client_disconnect (some c)).1 ≡ some c'
    → HasSocket nets c'
unfolding client_disconnect
client_disconnect-HasSocket nets c c' e h = absurd (ground (arith, e, h))

-- In every handle that the client can get by allocating, connecting and disconnecting, whatever the
-- network does, the connected state comes with a descriptor that a connect got for its socket and on
-- which its connection succeeded.
pub Reachable-HasSocket :
    (nets : List Network) (c : Connection) → Reachable nets c → HasSocket nets c
unfolding conn_handle_alloc
Reachable-HasSocket nets c (allocated _ e) = λ h. absurd (ground (arith, e, h))
Reachable-HasSocket _ c (connecting {nets = nets} {c = b} _ address port name net r e) =
    subst (Leaves (net ∷ nets)) e
      (client_connect-Leaves address port name b net nets (Reachable-HasSocket nets b r))
Reachable-HasSocket nets c (disconnecting {c = b} _ r e) = client_disconnect-HasSocket nets b c e
