-- ===== src/Shell/Sockets.antt =====
-- Where web/src/api.ts expects the socket of the server.
use infra_orch_studio.Common.{
  ℕ, ◌-◌, ◌≡◌, refl, ap, ◌∙◌, true, false, [], ◌∷◌, ◌++◌, Text, units, take, length, arith,
  length-append, ◌==◌, subst,
}
use mathlib.Core.List.{reverse, reverse-append}
use infra_orch_studio.Js.Text.{starts_with, ends_with}
use infra_orch_studio.Shell.{without_slash, ws_path}

starts_with_self : (p s : Text) → starts_with p (p ++ s) ≡ true
unfolding starts_with
starts_with_self [] s = refl
starts_with_self (c ∷ p) s = ground (arith, starts_with_self p s)

ends_with_self : (p s : Text) → ends_with p (s ++ p) ≡ true
unfolding ends_with
ends_with_self p s = rw (reverse-append s p) (starts_with_self (reverse p) (reverse s))

take-append : (s t : Text) → take (length s) (s ++ t) ≡ s
take-append [] t = refl
take-append (c ∷ s) t = ap (λ r. c ∷ r) (take-append s t)

-- A text that ends in another unit than a slash has no slash to drop.
no_slash_end :
    (s : Text) (c : ℕ) → (c == b'/') ≡ false → ends_with (units "/") (s ++ (c ∷ [])) ≡ false
unfolding ends_with starts_with
no_slash_end s c h = rw (reverse-append s (c ∷ [])) (ground arith)

drop_end : (s t : Text) → take (length (s ++ t) - length t) (s ++ t) ≡ s
drop_end s t =
    rw (length-append s t) (subst (λ n. take n (s ++ t) ≡ s) (omega arith) (take-append s t))

without_slash-slash : (s : Text) → without_slash (s ++ units "/") ≡ s
unfolding without_slash
without_slash-slash s = rw (ends_with_self (units "/") s) (drop_end s (units "/"))

append_assoc : (s t r : Text) → s ++ (t ++ r) ≡ (s ++ t) ++ r
append_assoc [] t r = refl
append_assoc (c ∷ s) t r = ap (λ x. c ∷ x) (append_assoc s t r)

without_slash-api : (s : Text) → without_slash (s ++ units "/api") ≡ s ++ units "/api"
unfolding without_slash
without_slash-api s =
    rw (append_assoc s (units "/ap") (units "i"))
      (rw (no_slash_end (s ++ units "/ap") b'i' refl) refl)

ws_path_api :
    (s path : Text) → without_slash path ≡ s ++ units "/api" → ws_path path ≡ s ++ units "/ws"
unfolding ws_path
ws_path_api s path h =
    rw (h, ends_with_self (units "/api") s) (ap (λ t. t ++ units "/ws") (drop_end s (units "/api")))

-- The socket stands beside the API: for every prefix, with or without a slash at the end, and so
-- for a server at the root and for one below a path.
pub ws_path_lem :
    (prefix : Text)
    → (ws_path (prefix ++ units "/api") ≡ prefix ++ units "/ws")
      × (ws_path (prefix ++ units "/api/") ≡ prefix ++ units "/ws")
ws_path_lem prefix = (
  ws_path_api prefix _ (without_slash-api prefix),
  ws_path_api prefix _ (
      ap without_slash (append_assoc prefix (units "/api") (units "/"))
      ∙ without_slash-slash (prefix ++ units "/api")),
)
