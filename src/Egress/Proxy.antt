-- ===== src/Egress/Proxy.antt =====
-- adapters/egress_proxy.py, `handle`: what the proxy does with one connection.
--
-- The request line is handed in decoded and stripped, its headers drained. The sockets are
-- functions over a world; `upper` is Python's.
use talisman_v.Prelude.{
  ℕ, String, ◌≡◌, ◌⊎◌, inl, inr, refl, Bool, true, false, Option, none, some, List, [], ◌∷◌, ◌==◌,
  Bool-cases, if◌then◌else◌,
}
use talisman_v.Prelude.Int.{ℤ}
use talisman_v.Prelude.Codes.{code_points, same_codes}
use talisman_v.Egress.Authority.{parse_authority}

-- `request_line.split(" ")`
abbrev into_parts : ℕ → List (List ℕ) → List (List ℕ)
into_parts c [] = (c ∷ []) ∷ []
into_parts c (part ∷ parts) = (c ∷ part) ∷ parts

unfoldable pub split_spaces : List ℕ → List (List ℕ)
split_spaces [] = [] ∷ []
split_spaces (c ∷ s) = let rest = split_spaces s in if c == 32 then [] ∷ rest else into_parts c rest

-- The server's parts: its predicate, and its sockets.
pub record Proxy (W : Type 0) : Type 0 where
  pub is_allowed : List ℕ → Bool
  pub upper : List ℕ → List ℕ
  pub to_int : List ℕ → Option ℤ
  pub create_connection : List ℕ → ℤ → W → Bool × W
  pub respond : String → W → W
  pub tunnel : W → W

module _ {W : Type 0} (proxy : Proxy W) where
  abbrev connected : Bool × W → W
  connected (false, w) = proxy.respond "502 Bad Gateway" w
  connected (true, w) = proxy.tunnel (proxy.respond "200 Connection Established" w)

  abbrev to_target : Option (List ℕ × ℤ) → W → W
  to_target none w = proxy.respond "400 Bad Request" w
  to_target (some (host, port)) w =
      if proxy.is_allowed host
      then connected (proxy.create_connection host port w)
      else proxy.respond "403 Forbidden" w

  abbrev dispatch : List (List ℕ) → W → W
  dispatch [] w = proxy.respond "501 Not Implemented" w
  dispatch (part ∷ []) w = proxy.respond "501 Not Implemented" w
  dispatch (verb ∷ authority ∷ parts) w =
      if same_codes (proxy.upper verb) (code_points "CONNECT")
      then to_target (parse_authority proxy.to_int authority) w
      else proxy.respond "501 Not Implemented" w

  -- `handle`
  unfoldable pub handle : List ℕ → W → W
  unfolding split_spaces same_codes parse_authority
  handle request_line w = dispatch (split_spaces request_line) w

  -- The two ways a connection ends: no socket is opened and the client is sent one status, or a
  -- socket is asked for, to a host that the predicate allows, for a CONNECT to an authority that
  -- reads as that host and port.
  abbrev pub IsRefused : W → W → Type 0
  IsRefused w w' = (status : String) × (w' ≡ proxy.respond status w)

  abbrev pub IsConnected : List ℕ → W → W → Type 0
  IsConnected request_line w w' =
      (verb authority : List ℕ) × (parts : List (List ℕ)) × (host : List ℕ) × (port : ℤ)
      × (split_spaces request_line ≡ verb ∷ authority ∷ parts)
      × (same_codes (proxy.upper verb) (code_points "CONNECT") ≡ true)
      × (parse_authority proxy.to_int authority ≡ some (host, port))
      × (proxy.is_allowed host ≡ true)
      × (w' ≡ connected (proxy.create_connection host port w))

  -- Every request is refused, or it is a CONNECT to an allowed host: no socket to any other host is
  -- asked for, whatever the predicate and the request line.
  pub connects_only_allowed :
      (request_line : List ℕ) (w : W)
      → IsRefused w (handle request_line w) ⊎ IsConnected request_line w (handle request_line w)
  unfolding handle
  connects_only_allowed request_line w = by_parts (split_spaces request_line) refl
    where
      by_target :
          (verb authority : List ℕ) (parts : List (List ℕ)) (t : Option (List ℕ × ℤ))
          → split_spaces request_line ≡ verb ∷ authority ∷ parts
          → same_codes (proxy.upper verb) (code_points "CONNECT") ≡ true
          → parse_authority proxy.to_int authority ≡ t
          → IsRefused w (to_target t w) ⊎ IsConnected request_line w (to_target t w)
      by_target verb authority parts none e v p = inl ("400 Bad Request", refl)
      by_target verb authority parts (some (host, port)) e v p =
          elim (Bool-cases (proxy.is_allowed host)) [
            | inr denied ↦ inl ("403 Forbidden", rw denied refl)
            | inl allowed ↦
                inr (verb, authority, parts, host, port, e, v, p, allowed, rw allowed refl)
          ]

      by_parts :
          (parts : List (List ℕ))
          → split_spaces request_line ≡ parts
          → IsRefused w (dispatch parts w) ⊎ IsConnected request_line w (dispatch parts w)
      by_parts [] e = inl ("501 Not Implemented", refl)
      by_parts (part ∷ []) e = inl ("501 Not Implemented", refl)
      by_parts (verb ∷ authority ∷ parts) e =
          elim (Bool-cases (same_codes (proxy.upper verb) (code_points "CONNECT"))) [
            | inr v ↦ inl ("501 Not Implemented", rw v refl)
            | inl v ↦
                rw v
                  (by_target verb authority parts (parse_authority proxy.to_int authority) e v refl)
          ]
