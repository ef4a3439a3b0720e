-- ===== src/Arca/Resp/Sequence.antt =====
-- RespParser::feed on the front of a sequence of commands.
use sovranx.Arca.Resp.{done, more, fed, parse_one, push_command, feed_loop, feed}
use sovranx.Arca.Resp.Feed.{parse_one-length, feed_loop_more, feed_loop_done}
use sovranx.Arca.Resp.RoundTrip.{IsRequest, encode, parse_one-encode, parse_one_truncated}
use sovranx.Prelude.{
  ℕ, zero, suc, ◌<◌, ◌≡◌, refl, sym, ap, ap₂, ◌∙◌, ◌⊎◌, inl, inr, List, [], ◌∷◌, ◌++◌, append-nil,
  append_assoc, map, concat, length, length-append, All, Bytes, arith,
}

-- A command within the limits of the protocol, of one word at least.
abbrev pub IsCommand : List Bytes → Type 0
IsCommand cmd = IsRequest cmd × (0 < length cmd)

abbrev pub encode_all : List (List Bytes) → Bytes
encode_all cmds = concat (map encode cmds)

-- An unread rest that holds no whole command.
abbrev pub Waits : Bytes → List (List Bytes) → Type 0
Waits b [] = Unit
Waits b (cmd ∷ cmds) = length b < length (encode cmd)

split_append :
    (s t x y : Bytes)
    → s ++ t ≡ x ++ y
    → ((s' : Bytes) × (s ≡ x ++ s') × (s' ++ t ≡ y))
      ⊎ ((c : ℕ) × (back : Bytes) × (x ≡ s ++ (c ∷ back)))
split_append s t [] y e = inl (s, refl, e)
split_append [] t (c ∷ x) y e = inr (c, x, refl)
split_append (a ∷ s) t (c ∷ x) y e =
    let same : a ≡ c = cc in
    let rest : s ++ t ≡ x ++ y = cc in
    elim (split_append s t x y rest) [
      | inl (s', front, back) ↦ inl (s', ap₂ ◌∷◌ same front, back)
      | inr (d, back, front) ↦ inr (d, back, ap₂ ◌∷◌ (sym same) front)
    ]

push_command_lem :
    (cmd : List Bytes) (ready : List (List Bytes))
    → 0 < length cmd
    → push_command cmd ready ≡ ready ++ (cmd ∷ [])
unfolding push_command
push_command_lem [] ready h = absurd (omega arith)
push_command_lem (w ∷ ws) ready h = refl

parse_one_nil : parse_one [] ≡ more
unfolding parse_one
parse_one_nil = refl

-- The loop of feed on the front of a sequence of commands: those that are whole are ready.
feed_loop-encode_all :
    (f : ℕ) (buf s t : Bytes) (ready cmds : List (List Bytes))
    → All IsCommand cmds
    → s ++ t ≡ encode_all cmds
    → length s < f
    → (whole : List (List Bytes)) × (todo : List (List Bytes)) × (b : Bytes) × (feed_loop f buf s
          ready
        ≡ fed (record { buf = b; ready = ready ++ whole }))
      × (cmds ≡ whole ++ todo)
      × (b ++ t ≡ encode_all todo)
      × Waits b todo
      × All IsCommand todo
feed_loop-encode_all zero buf s t ready cmds h e l = absurd (omega arith)
feed_loop-encode_all (suc f) buf [] t ready [] h e l = (
  [],
  [],
  [],
  feed_loop_more f buf [] ready parse_one_nil
      ∙ ap (λ xs. fed (record { buf = []; ready = xs })) (sym (append-nil ready)),
  refl,
  e,
  tt,
  tt,
)
feed_loop-encode_all (suc f) buf (a ∷ s) t ready [] h e l =
    absurd (let k : a ∷ (s ++ t) ≡ [] = e in cc)
feed_loop-encode_all (suc f) buf s t ready (cmd ∷ cmds) ((request, some_word), h) e l =
    elim (split_append s t (encode cmd) (encode_all cmds) e) [
      | inr (c, back, front) ↦ (
        [],
        cmd ∷ cmds,
        s,
        feed_loop_more f buf s ready (parse_one_truncated cmd s back c request front)
            ∙ ap (λ xs. fed (record { buf = s; ready = xs })) (sym (append-nil ready)),
        refl,
        e,
        omega (arith, ap length front, length-append s (c ∷ back)),
        ((request, some_word), h),
      )
      | inl (s', front, rest) ↦
          let read : parse_one s ≡ done cmd s' =
            ap parse_one front ∙ parse_one-encode cmd s' request in
          let shorter : length s' < f = omega (arith, parse_one-length s s' cmd read, l) in
          let (whole, todo, b, ran, split, left, waits, k) =
            feed_loop-encode_all f buf s' t (ready ++ (cmd ∷ [])) cmds h rest shorter in
          (
            cmd ∷ whole,
            todo,
            b,
            feed_loop_done f buf s ready cmd s' read
                ∙ ap (feed_loop f buf s') (push_command_lem cmd ready some_word)
                ∙ ran
                ∙ ap (λ xs. fed (record { buf = b; ready = xs }))
                    (append_assoc ready (cmd ∷ []) whole),
            ap (λ xs. cmd ∷ xs) split,
            left,
            waits,
            k,
          )
    ]

pub feed-encode_all :
    (b s t : Bytes) (cmds : List (List Bytes))
    → All IsCommand cmds
    → (b ++ s) ++ t ≡ encode_all cmds
    → (whole : List (List Bytes)) × (todo : List (List Bytes)) × (b' : Bytes) × (feed
          (record { buf = b; ready = [] })
          s
        ≡ fed (record { buf = b'; ready = whole }))
      × (cmds ≡ whole ++ todo)
      × (b' ++ t ≡ encode_all todo)
      × Waits b' todo
      × All IsCommand todo
unfolding feed
feed-encode_all b s t cmds h e =
    feed_loop-encode_all (suc (length (b ++ s))) (b ++ s) (b ++ s) t [] cmds h e (omega arith)
