-- ===== src/Http/Report/Unique.antt =====
-- What a line of the access log tells of its request.
use motor.Base.{ℕ, Text, lit, ◌≡◌, ◌≢◌, refl, [], ◌∷◌, ◌++◌, All}
use motor.Http.Request.{Request, Library, get_header}
use motor.Http.Report.{access_log, size_text, or_dash}

-- A text without the byte.
abbrev pub Lacks : ℕ → Text → Type 0
Lacks b t = All (λ x. x ≢ b) t

-- Texts that are cut at the first of a byte.
cut :
    (b : ℕ) (s t u v : Text)
    → Lacks b s
    → Lacks b t
    → s ++ (b ∷ u) ≡ t ++ (b ∷ v)
    → (s ≡ t) × (u ≡ v)
cut b [] [] u v h k e = (refl, cc)
cut b [] (y ∷ t) u v h k e = absurd (k.0 cc)
cut b (x ∷ s) [] u v h k e = absurd (h.0 cc)
cut b (x ∷ s) (y ∷ t) u v h k e =
    let (same, rest) = cut b s t u v h.1 k.1 cc in let first : x ≡ y = cc in (cc, rest)

strip : (p u v : Text) → p ++ u ≡ p ++ v → u ≡ v
strip [] u v e = e
strip (x ∷ p) u v e = strip p u v cc

-- The same with what stands behind the byte.
field :
    (b : ℕ) (p s t u v : Text)
    → Lacks b s
    → Lacks b t
    → s ++ ((b ∷ p) ++ u) ≡ t ++ ((b ∷ p) ++ v)
    → (s ≡ t) × (u ≡ v)
field b p s t u v h k e =
    let (same, rest) = cut b s t (p ++ u) (p ++ v) h k e in (same, strip p u v rest)

module _ {S : Type 0} (lib : Library S) where
  abbrev pub referer : Request S → Text
  referer c = or_dash (get_header (lit "Referer") c.header)

  abbrev pub user_agent : Request S → Text
  user_agent c = get_header (lit "User-Agent") c.header

  -- No field has the byte that ends it: a space, a bracket or a quote.
  pub record IsPlain (c : Request S) : Type 0 where
    pub plain_ip : Lacks 32 c.client_ip
    pub plain_time : Lacks 93 (lib.format_time c.now)
    pub plain_method : Lacks 32 c.method
    pub plain_path : Lacks 32 c.path
    pub plain_proto : Lacks 34 c.proto
    pub plain_status : Lacks 32 (lib.decimal c.status)
    pub plain_size : Lacks 32 (size_text lib c.size)
    pub plain_referer : Lacks 34 (referer c)
    pub plain_agent : Lacks 34 (user_agent c)

  -- The fields of the line, of one request as of the other.
  abbrev pub Tells : Request S → Request S → Type 0
  Tells c d =
      (c.client_ip ≡ d.client_ip)
      × (lib.format_time c.now ≡ lib.format_time d.now)
      × (c.method ≡ d.method)
      × (c.path ≡ d.path)
      × (c.proto ≡ d.proto)
      × (lib.decimal c.status ≡ lib.decimal d.status)
      × (size_text lib c.size ≡ size_text lib d.size)
      × (referer c ≡ referer d)
      × (user_agent c ≡ user_agent d)

  -- Requests with one line in the access log agree in every field of it (address, time, method,
  -- path, protocol, status and size as printed, referer and user agent), if no field has the
  -- space, the bracket or the quote that ends it in the line.
  pub access_log-IsPlain :
      (c d : Request S) → IsPlain c → IsPlain d → access_log lib c ≡ access_log lib d → Tells c d
  unfolding access_log
  access_log-IsPlain c d p q e =
      let (ip, e1) = field 32 (lit "- - [") c.client_ip d.client_ip _ _ p.plain_ip q.plain_ip e in
      let (time, e2) =
        field 93 (lit " \"") (lib.format_time c.now) (lib.format_time d.now) _ _ p.plain_time
          q.plain_time e1 in
      let (method, e3) = field 32 [] c.method d.method _ _ p.plain_method q.plain_method e2 in
      let (path, e4) = field 32 [] c.path d.path _ _ p.plain_path q.plain_path e3 in
      let (proto, e5) = field 34 (lit " ") c.proto d.proto _ _ p.plain_proto q.plain_proto e4 in
      let (status, e6) =
        field 32 [] (lib.decimal c.status) (lib.decimal d.status) _ _ p.plain_status q.plain_status
          e5 in
      let (size, e7) =
        field 32 (lit "\"") (size_text lib c.size) (size_text lib d.size) _ _ p.plain_size
          q.plain_size e6 in
      let (from, e8) =
        field 34 (lit " \"") (referer c) (referer d) _ _ p.plain_referer q.plain_referer e7 in
      let (agent, e9) = cut 34 (user_agent c) (user_agent d) [] [] p.plain_agent q.plain_agent e8 in
      (ip, time, method, path, proto, status, size, from, agent)
