-- ===== src/Net/Server/Sweep.antt =====
-- The state of tcp_server.go and kcp_server.go that a schedule keeps, and the sets of sockets in it.
use gotu.Base.{
  ℕ, suc, ◌<◌, ◌≡◌, Bool, true, false, not, ◌&&◌, ◌||◌, List, [], ◌∷◌, ◌==◌, All, arith, Bool-cases,
  inl, inr, ==→eq, ==_refl,
}
use gotu.Net.Server.{
  Kind, AcceptAt, making, adding, finished, CloseAt, uncalled, closing, shutting, stopping, waiting,
  returned, Server, has, without, over, keeps,
}

-- Whether Close holds the lock, whether it has closed closeCh, and whether it has returned.
abbrev pub holds : Kind → CloseAt → Bool
holds kind uncalled = false
holds kind (closing is) = true
holds kind shutting = keeps kind
holds kind stopping = keeps kind
holds kind waiting = keeps kind
holds kind returned = false

abbrev pub shut : CloseAt → Bool
shut uncalled = false
shut (closing is) = false
shut shutting = false
shut _ = true

abbrev pub is_returned : CloseAt → Bool
is_returned returned = true
is_returned _ = false

abbrev pub is_finished : AcceptAt → Bool
is_finished finished = true
is_finished _ = false

-- Whether Close may still leave a socket live: before it began any, in its loop those to come, and
-- after the loop those that a TCP server adds behind its back.
abbrev pub may_live : Kind → CloseAt → ℕ → Bool
may_live kind uncalled i = true
may_live kind (closing is) i = has i is
may_live kind _ i = not (keeps kind)

-- The number that `accept` has in hand is one that was given.
abbrev pub IsGiven : ℕ → AcceptAt → Type 0
IsGiven next (making i) = i < next
IsGiven next (adding i) = i < next
IsGiven next _ = Unit {0}

abbrev pub IsSwept : Kind → CloseAt → List ℕ → ℕ → ℕ → Type 0
IsSwept kind at live next i = (i < next) × ((not (has i live) || may_live kind at i) ≡ true)

pub record IsGuarded (kind : Kind) (s : Server) : Type 0 where
  pub lock : s.mu ≡ holds kind s.closer
  pub shutdown : s.close_ch ≡ shut s.closer
  pub joined : (not (is_returned s.closer) || is_finished s.accept) ≡ true
  pub fresh : IsGiven s.next s.accept
  pub swept : All (IsSwept kind s.closer s.live s.next) s.sockets

pub All-map : {P Q : ℕ → Type 0} (xs : List ℕ) → ((i : ℕ) → P i → Q i) → All P xs → All Q xs
All-map [] f a = a
All-map (x ∷ xs) f (p, a) = (f x p, All-map xs f a)

pub All-without : (P : ℕ → Type 0) (i : ℕ) (xs : List ℕ) → All P xs → All P (without i xs)
All-without P i [] a = a
All-without P i (x ∷ xs) (p, a) = elim (Bool-cases (x == i)) [
  | inl e ↦ rw e (All-without P i xs a)
  | inr e ↦ rw e (p, All-without P i xs a)
]

pub has-without : (j i : ℕ) (xs : List ℕ) → has j (without i xs) ≡ (not (i == j) && has j xs)
has-without j i [] = ground arith
has-without j i (x ∷ xs) = ground (arith, has-without j i xs)

module _ (kind : Kind) where
  over-IsSwept :
      (at : CloseAt) (live : List ℕ) (next i j : ℕ)
      → IsSwept kind at live next j
      → IsSwept kind at (without i live) next j
  over-IsSwept at live next i j (less, ok) = (less, rw (has-without j i live) (ground arith))

  pub over-IsGuarded : (i : ℕ) (s : Server) → IsGuarded kind s → IsGuarded kind (over i s)
  over-IsGuarded i s v = elim (Bool-cases (has i s.live)) [
    | inl e ↦ rw e (record {
      lock = v.lock;
      shutdown = v.shutdown;
      joined = v.joined;
      fresh = v.fresh;
      swept = All-map s.sockets (over-IsSwept s.closer s.live s.next i) v.swept;
    })
    | inr e ↦ rw e v
  ]

  -- One socket of Close's loop.
  pub close-IsSwept :
      (i j : ℕ) (is live : List ℕ) (next : ℕ)
      → IsSwept kind (closing (i ∷ is)) live next j
      → IsSwept kind (closing is) (without i live) next j
  close-IsSwept i j is live next (less, ok) = (less, rw (has-without j i live) (ground arith))

  pub skip-IsSwept :
      (i j : ℕ) (is live : List ℕ) (next : ℕ)
      → has i live ≡ false
      → IsSwept kind (closing (i ∷ is)) live next j
      → IsSwept kind (closing is) live next j
  skip-IsSwept i j is live next e (less, ok) = (less, ground (arith, ==→eq i j))

  -- A socket that is made does not stand in the map yet.
  pub made-IsSwept :
      (at : CloseAt) (live : List ℕ) (next j : ℕ)
      → IsSwept kind at live next j
      → IsSwept kind at (next ∷ live) (suc next) j
  made-IsSwept at live next j (less, ok) = (omega (arith, less), ground arith)

  All-has : (P : ℕ → Type 0) (xs : List ℕ) → ((i : ℕ) → has i xs ≡ true → P i) → All P xs
  All-has P [] f = tt
  All-has P (x ∷ xs) f =
      (f x (ground (arith, ==_refl x)), All-has P xs (λ i h. f i (ground (arith, h))))

  below :
      (at : CloseAt) (live : List ℕ) (next i : ℕ) (xs : List ℕ)
      → All (IsSwept kind at live next) xs
      → has i xs ≡ true
      → i < next
  below at live next i [] a h = ground (arith, h)
  below at live next i (x ∷ xs) ((less, ok), a) h =
      ground (arith, ==→eq x i, below at live next i xs a)

  pub started-IsSwept :
      (live : List ℕ) (next : ℕ) (xs : List ℕ)
      → All (IsSwept kind uncalled live next) xs
      → All (IsSwept kind (closing xs) live next) xs
  started-IsSwept live next xs a =
      All-has (IsSwept kind (closing xs) live next) xs
        (λ i h. (below uncalled live next i xs a h, ground (arith, h)))

  pub ended-IsSwept :
      (live : List ℕ) (next j : ℕ)
      → IsSwept kind (closing []) live next j
      → IsSwept kind shutting live next j
  ended-IsSwept live next j (less, ok) = (less, ground arith)
