-- ===== src/Message/Wire/Lenient.antt =====
-- What a request is read from though members are missing.
use jsonrpc.Base.{
  Bool, true, false, ◌||◌, Option, none, some, List, [], ◌∷◌, Bytes, codes, ◌≡◌, refl, sym, ap,
  subst, ◌∙◌, arith,
}
use jsonrpc.Failure.{GoError, Outcome, ok, fail}
use jsonrpc.Hint.{TypeHint, hint_type}
use jsonrpc.Json.{Json}
use jsonrpc.Message.Codec.{
  Objects, Member, Reading, ◌>>=◌, bind-ok, read_members, read_text, finish, set_or_save,
  unless_null, ok_inj,
}
use jsonrpc.Message.Version
use jsonrpc.Message.Request.{Request, zero_request}
use jsonrpc.Message.Wire.{read_request_member, read_request}

-- A member of a list stands for a field.
abbrev pub has_member : Objects → Bytes → List Member → Bool
has_member o f [] = false
has_member o f ((name, d) ∷ ms) = o.matches name f || has_member o f ms

module _ (j : Json) (o : Objects) where
  -- Whether the version of a request so far is valid.
  versioned : Reading Request → Bool
  versioned (r, saved) = r.jsonrpc_version.present

  unmarshal_json-valid :
      (d : Bytes) (v : Version.Version) → Version.unmarshal_json j d ≡ ok v → v.present ≡ true
  unfolding Version.unmarshal_json
  unmarshal_json-valid d v h = ground arith

  set_or_save-versioned :
      (x : Outcome Bytes) (r : Request) (saved : Option GoError)
      → versioned (set_or_save x (λ s. record r { method = s }) (r, saved))
        ≡ r.jsonrpc_version.present
  unfolding versioned
  set_or_save-versioned (ok s) r saved = refl
  set_or_save-versioned (fail e) r saved = refl

  unless_null-versioned :
      (t : TypeHint) (a b : Reading Request)
      → versioned a ≡ versioned b
      → versioned (unless_null t a b) ≡ versioned b
  unless_null-versioned TypeHint.null a b h = h
  unless_null-versioned _ a b h = refl

  read_text-versioned :
      (d : Bytes) (r : Request) (saved : Option GoError)
      → versioned (read_text j d (λ s. record r { method = s }) (r, saved))
        ≡ r.jsonrpc_version.present
  unfolding read_text versioned
  read_text-versioned d r saved =
      let read = set_or_save (j.unmarshal_string d) (λ s. record r { method = s }) (r, saved) in
      unless_null-versioned (hint_type d) (r, saved) read
        (sym (set_or_save-versioned (j.unmarshal_string d) r saved))
      ∙ set_or_save-versioned (j.unmarshal_string d) r saved

  read_request_member-versioned :
      (name d : Bytes) (r : Request) (saved : Option GoError) (t : Reading Request)
      → read_request_member j o (name, d) (r, saved) ≡ ok t
      → versioned t ≡ (o.matches name (codes "jsonrpc") || r.jsonrpc_version.present)
  unfolding read_request_member versioned
  read_request_member-versioned name d r saved t h =
      ground (arith, read_text-versioned d r saved, unmarshal_json-valid d)

  read_members-versioned :
      (ms : List Member) (r : Request) (saved : Option GoError) (t : Reading Request)
      → read_members (read_request_member j o) ms (r, saved) ≡ ok t
      → versioned t ≡ (has_member o (codes "jsonrpc") ms || r.jsonrpc_version.present)
  unfolding read_members versioned
  read_members-versioned [] r saved t h = ap versioned (sym (ok_inj h))
  read_members-versioned ((name, d) ∷ ms) r saved t h =
      let ((r1, s1), h1, h2) =
        bind-ok (read_request_member j o (name, d) (r, saved))
          (read_members (read_request_member j o) ms) t h in
      read_members-versioned ms r1 s1 t h2
      ∙ rw (read_request_member-versioned name d r saved (r1, s1) h1) (
          or_swap (has_member o (codes "jsonrpc") ms) (o.matches name (codes "jsonrpc"))
            r.jsonrpc_version.present)
    where
      or_swap : (a b c : Bool) → (a || (b || c)) ≡ (b || a || c)
      or_swap a b c = ground arith

  finish-versioned :
      (x : Outcome (Reading Request)) (r : Request)
      → (x >>= finish) ≡ ok r
      → (t : Reading Request) × (x ≡ ok t) × (versioned t ≡ r.jsonrpc_version.present)
  unfolding versioned
  finish-versioned (fail e) r h = cc
  finish-versioned (ok (s, some e)) r h = cc
  finish-versioned (ok (s, none)) r h =
      ((s, none), refl, ap (λ q. q.jsonrpc_version.present) (ok_inj h))

  -- A request that is read has a valid version exactly if the object has a member that stands for
  -- jsonrpc: reading refuses a wrong version, and not a missing one.
  pub read_request-versioned :
      (d : Bytes) (ms : List Member) (r : Request)
      → o.read d ≡ ok ms
      → read_request j o d ≡ ok r
      → Version.is_valid r.jsonrpc_version ≡ has_member o (codes "jsonrpc") ms
  unfolding read_request Version.is_valid
  read_request-versioned d ms r e h =
      let result = read_members (read_request_member j o) ms (zero_request, none) in
      let (t, et, v) = finish-versioned result r (
        subst
          (λ x.
            (x >>= λ ns. read_members (read_request_member j o) ns (zero_request, none) >>= finish)
            ≡ ok r)
          e h) in
      sym v
      ∙ read_members-versioned ms zero_request none t et
      ∙ or_false (has_member o (codes "jsonrpc") ms)
    where
      or_false : (a : Bool) → (a || false) ≡ a
      or_false a = ground arith
