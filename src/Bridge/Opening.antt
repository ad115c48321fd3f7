-- ===== src/Bridge/Opening.antt =====
-- src/wow64: how a client comes to be open on both sides.
use pipeasio.Prelude.{
  ℕ, ◌≡◌, ◌≢◌, ◌⊎◌, inl, inr, refl, Bool, false, not, ◌&&◌, ◌||◌, Option, none, some, ◌==◌, length,
  arith, Bool-cases, Option-cases,
}
use pipeasio.Audio.{Client}
use pipeasio.Bridge.Calls.{Unix}
use pipeasio.Bridge.Front.{audio_open}
use pipeasio.Bridge.Handles.{tok_add-Added}
use pipeasio.Bridge.Interface.{StandsFor}
use pipeasio.Bridge.Life.{open_call, new_context}
use pipeasio.Bridge.Proxy.{Proxy, strncpy}
use pipeasio.Bridge.Sync.{InitAnswers, zero_sync, bridge_init}
use pipeasio.Bridge.Tokens.{context, token_max, tok_add, tok_get}
use pipeasio.Bridge.{name_max}
use pipeasio.Config.{Bytes}

module _ (unixlib alloc calloc : Bool) (init : InitAnswers)
    (backend : Bytes → ℕ → Option Client × ℕ) (name : Option Bytes) (options : ℕ) (u : Unix) where
  -- In a table of the right size, opening ends in one of two ways.  Either it gives no client and a status
  -- that is not zero; or it gives a proxy for the client that the 64-bit side has opened under the
  -- name, cut to the wire's field, and the options.
  pub audio_open-StandsFor :
      length u.tokens ≡ token_max
      → let o = audio_open unixlib alloc (open_call calloc init backend) name options u in
        ((o.proxy ≡ none) × (o.status ≢ 0))
        ⊎ ((x : Proxy) × (c : Client) × (o.proxy ≡ some x)
            × ((backend (strncpy name_max name) options).0 ≡ some c)
            × StandsFor x c o.unix)
  unfolding audio_open open_call new_context
  audio_open-StandsFor sized = elim (Bool-cases (not unixlib || not alloc)) [
    | inl e ↦ inl (ground arith, ground arith)
    | inr e ↦ elim (Bool-cases (calloc && (bridge_init init zero_sync).0)) [
      | inr f ↦ inl (ground arith, ground arith)
      | inl f ↦ elim (Option-cases (backend (strncpy name_max name) options).0) [
        | inl g ↦ inl (ground arith, ground arith)
        | inr g ↦ elim (Bool-cases ((tok_add (context u.next_address) u.tokens).0 == 0)) [
          | inl h ↦ inl (ground arith, ground arith)
          | inr h ↦
              let r = tok_add (context u.next_address) u.tokens in
              let token : tok_get r.1 r.0 ≡ some (context u.next_address) =
                elim (tok_add-Added (context u.next_address) u.tokens sized) [
                  | inl a ↦ ground (arith, a.2 r.0)
                  | inr a ↦ absurd (ground arith)
                ] in
              inr (
                record {
                  unix_client = r.0;
                  this = false;
                  callbacks = record { buf_cb = none; rate_cb = none; lat_cb = none };
                  pump = false;
                },
                g.0,
                ground (arith, g.1),
                g.1,
                record {
                  address = u.next_address;
                  ctx = new_context (bridge_init init zero_sync).1 g.0;
                  token = ground (arith, token, g.1);
                  alive = ground (arith, g.1);
                  client = refl;
                },
              )
        ]
      ]
    ]
  ]
