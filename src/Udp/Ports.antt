-- ===== src/Udp/Ports.antt =====
-- Where the ports of the pool go.
use rtp_server.Common.{
  ℕ, ◌%◌, ◌≡◌, ◌≢◌, refl, ap, ◌∙◌, inl, inr, not, ◌&&◌, List, [], ◌∷◌, ◌++◌, arith, ◌==◌,
  Bool-cases, All,
}
use rtp_server.Exception.{Outcome, done, threw}
use rtp_server.Udp.{get_even_port, Kernel, Net, reset_port, bind_fresh, bind_port, bind, destroy}

-- A port for RTP: even, and not 0.
abbrev pub IsRtpPort : ℕ → Type 0
IsRtpPort p = (p % 2 ≡ 0) × (p ≢ 0)

All-concat : (xs : List ℕ) (x : ℕ) → All IsRtpPort xs → IsRtpPort x → All IsRtpPort (xs ++ x ∷ [])
All-concat [] x h p = (p, tt)
All-concat (y ∷ xs) x h p = (h.0, All-concat xs x h.1 p)

abbrev pub state_of : {k : Kernel} → Outcome (Net k) → Net k
state_of (done n) = n
state_of (threw _ n) = n

module _ (k : Kernel) where
  pub reset_port-IsRtpPort :
      (n : Net k) → All IsRtpPort n.ports → All IsRtpPort (reset_port k n).ports
  unfolding reset_port
  reset_port-IsRtpPort n h =
      elim (Bool-cases (not (n.socket.port == 0) && n.socket.port % 2 == 0)) [
        | inl own ↦ rw own (All-concat n.ports n.socket.port h (ground arith))
        | inr other ↦ rw other h
      ]

  bind_fresh-ports : (p : ℕ) (n : Net k) → (state_of {k = k} (bind_fresh k p n)).ports ≡ n.ports
  unfolding bind_fresh
  bind_fresh-ports p n = ground arith

  bind_port-IsRtpPort :
      (p : ℕ) (n : Net k)
      → All IsRtpPort n.ports
      → All IsRtpPort (state_of {k = k} (bind_port k p n)).ports
  unfolding bind_port
  bind_port-IsRtpPort p n h = rw (bind_fresh-ports p (reset_port k n)) (reset_port-IsRtpPort n h)

  tail-IsRtpPort : (ps : List ℕ) → All IsRtpPort ps → All IsRtpPort (get_even_port ps).1
  unfolding get_even_port
  tail-IsRtpPort [] h = tt
  tail-IsRtpPort (p ∷ ps) h = h.1

  -- Every port in the pool stays even and is never 0: `bind`, `bind` to a given port and the
  -- destructor keep that, whether they succeed or throw, and whatever memory the socket began with.
  pub pool-IsRtpPort :
      (p : ℕ) (n : Net k)
      → All IsRtpPort n.ports
      → All IsRtpPort (state_of {k = k} (bind k n)).ports
        × All IsRtpPort (state_of {k = k} (bind_port k p n)).ports
        × All IsRtpPort (destroy k n).ports
  unfolding bind destroy
  pool-IsRtpPort p n h = (
    bind_port-IsRtpPort (get_even_port n.ports).0 (record n { ports = (get_even_port n.ports).1 })
        (tail-IsRtpPort n.ports h),
    bind_port-IsRtpPort p n h,
    destroy-IsRtpPort,
  )
    where
      closed : Net k
      closed = record n { kernel = k.close_socket n.socket.socket_fd n.kernel }

      destroy-IsRtpPort : All IsRtpPort (destroy k n).ports
      destroy-IsRtpPort = elim (Bool-cases (n.socket.socket_fd == 0)) [
        | inl never ↦ rw never h
        | inr open_fd ↦ rw open_fd (reset_port-IsRtpPort closed h)
      ]

  reset_port_zero : (n : Net k) → n.socket.port ≡ 0 → reset_port k n ≡ n
  unfolding reset_port
  reset_port_zero n h = rw (reset_port, h)

  -- What the destructor leaves in the pool.
  destroy-ports :
      (n : Net k)
      → n.socket.socket_fd ≢ 0
      → (n.socket.port ≡ 0 → (destroy k n).ports ≡ n.ports)
        × (IsRtpPort n.socket.port → (destroy k n).ports ≡ n.ports ++ n.socket.port ∷ [])
  unfolding destroy reset_port
  destroy-ports n h = ((λ z. ground arith), (λ r. ground arith))

  abbrev pub Bound : ℕ → Net k → Outcome (Net k) → Type 0
  Bound p n (done n') = (n'.socket.port ≡ p) × (n'.ports ≡ n.ports)
  Bound p n (threw _ n') = (n'.socket.port ≡ n.socket.port) × (n'.ports ≡ n.ports)

  pub bind_fresh-Bound : (p : ℕ) (n : Net k) → Bound p n (bind_fresh k p n)
  unfolding bind_fresh
  bind_fresh-Bound p n = ground arith

  -- What is in the pool once the socket is gone: with `p` again at its end, or without it.
  abbrev pub Returned : ℕ → List ℕ → Outcome (Net k) → Type 0
  Returned p ps (done n') = (n'.socket.port ≡ p) × ((destroy k n').ports ≡ ps ++ p ∷ [])
  Returned p ps (threw _ n') = (destroy k n').ports ≡ ps

  Bound-Returned :
      (p : ℕ) (n : Net k) (o : Outcome (Net k))
      → n.socket.port ≡ 0
      → IsRtpPort p
      → (state_of {k = k} o).socket.socket_fd ≢ 0
      → Bound p n o
      → Returned p n.ports o
  Bound-Returned p n (done n') z r fd (port, ports) =
      (port, rw (← ports, ← port) ((destroy-ports n' fd).1 (rw port r)))
  Bound-Returned p n (threw e n') z r fd (port, ports) = (destroy-ports n' fd).0 (port ∙ z) ∙ ports

  pub bind-bind_fresh :
      (n : Net k) (p : ℕ) (ps : List ℕ)
      → n.socket.port ≡ 0
      → n.ports ≡ p ∷ ps
      → bind k n ≡ bind_fresh k p (record n { ports = ps })
  unfolding bind bind_port
  bind-bind_fresh n p ps z e =
      ap (λ (t : ℕ × List ℕ). bind_port k t.0 (record n { ports = t.1 })) taken
      ∙ ap (bind_fresh k p) (reset_port_zero (record n { ports = ps }) z)
    where
      taken : get_even_port n.ports ≡ (p, ps)
      taken = rw e (unfold get_even_port in refl)

  -- For a socket that holds no port and a pool with `p` in front: if `bind` succeeds the socket has
  -- `p`, and its destructor puts `p` back at the end. If `bind` throws,
  -- the pool is without `p` after the destructor too. This is for an even port other than 0 and a
  -- descriptor other than 0.
  pub bind-Returned :
      (n : Net k) (p : ℕ) (ps : List ℕ)
      → n.socket.port ≡ 0
      → n.ports ≡ p ∷ ps
      → IsRtpPort p
      → (state_of {k = k} (bind k n)).socket.socket_fd ≢ 0
      → Returned p ps (bind k n)
  bind-Returned n p ps z e r fd =
      Bound-Returned p (record n { ports = ps }) (bind k n) z r fd
        (rw (bind-bind_fresh n p ps z e) (bind_fresh-Bound p (record n { ports = ps })))
