-- ===== src/Middleware/Gzip.antt =====
-- internal/gzip/gzip.go: compressed requests are read through a decompressor, and a response in JSON
-- or HTML goes out compressed to a client that accepts this. The readers and writers of compress/gzip
-- and the tests of `strings` are parameters; their pools only reuse memory.
use metrics_alerting_service.Prelude.{
  ℕ, String, Bool, true, false, Option, none, some, List, [], ◌∷◌, ◌++◌, map, ◌==◌, ◌||◌, ◌≡◌, refl,
  if_elim, if◌then◌else◌,
}
use metrics_alerting_service.Errors.{Error, Result, ok, err}
use metrics_alerting_service.Http.{
  Request, Op, set_header, del_header, write_header, write, Handler, Net,
}

-- `new_reader` is `gzip.NewReader` on a body, with what `ReadAll` then gives. A writer has the state
-- `Z`; `compress` and `finish` are `Write` and `Close`, with the writes that they make below.
pub record Codec (B Z : Type 0) : Type 0 where
  pub new_reader : Result B → Result (Result B)
  pub new_writer : Z
  pub compress : B → Z → List B × Z
  pub finish : Z → List B
  pub has_prefix : String → String → Bool
  pub contains : String → String → Bool

module _ {B Z : Type 0} (codec : Codec B Z) (message : Error → String) where
  -- `gzipWriter`; `content_type` is what the header of the writer below holds.
  pub record GzipWriter : Type 0 where
    pub content_type : String
    pub gz : Option Z
    pub started : Bool

  is_compressible : String → Bool
  is_compressible ct = codec.has_prefix ct "application/json" || codec.has_prefix ct "text/html"

  decide : GzipWriter → List (Op B) × GzipWriter
  unfolding is_compressible
  decide w =
      if w.started
      then ([], w)
      else if is_compressible w.content_type
      then (
        set_header "Content-Encoding" "gzip" ∷ del_header "Content-Length" ∷ [],
        record w { gz = some codec.new_writer; started = true },
      )
      else ([], record w { started = true })

  -- `Write` after `decide`
  write_decided : B → List (Op B) × GzipWriter → List (Op B) × GzipWriter
  write_decided b (ops, w) = elim w.gz [
    | none ↦ (ops ++ write b ∷ [], w)
    | some z ↦
        let (out, z') = codec.compress b z in (ops ++ map write out, record w { gz = some z' })
  ]

  header_decided : ℕ → List (Op B) × GzipWriter → List (Op B) × GzipWriter
  header_decided code (ops, w) = (ops ++ write_header code ∷ [], w)

  gzip_op : Op B → GzipWriter → List (Op B) × GzipWriter
  unfolding decide write_decided header_decided
  gzip_op (set_header k v) w =
      (set_header k v ∷ [], if k == "Content-Type" then record w { content_type = v } else w)
  gzip_op (del_header k) w =
      (del_header k ∷ [], if k == "Content-Type" then record w { content_type = "" } else w)
  gzip_op (write_header code) w = header_decided code (decide w)
  gzip_op (write b) w = write_decided b (decide w)

  -- `Close`
  close_writer : Option Z → List (Op B)
  close_writer none = []
  close_writer (some z) = map write (codec.finish z)

  gzip_ops : List (Op B) → GzipWriter → List (Op B)
  unfolding gzip_op close_writer
  gzip_ops [] w = close_writer w.gz
  gzip_ops (op ∷ ops) w = let (out, w') = gzip_op op w in out ++ gzip_ops ops w'

  unfoldable pub compress_response : List (Op B) → List (Op B)
  unfolding gzip_ops
  compress_response ops = gzip_ops ops (record { content_type = ""; gz = none; started = false })

  module _ {S : Type 0} (net : Net B) where
    compressed : List (Op B) × S → List (Op B) × S
    unfolding compress_response
    compressed (ops, s) = (compress_response ops, s)

    respond : Handler B S → Handler B S
    unfolding compressed
    respond next r s =
        if codec.contains (r.header "Accept-Encoding") "gzip"
        then compressed (next r s)
        else next r s

    with_reader : Result (Result B) → Handler B S → Handler B S
    unfolding respond
    with_reader (err e) next r s = (net.error (message e) 400, s)
    with_reader (ok body) next r s = respond next (record r { body = body }) s

    -- `Middleware`
    unfoldable pub gzip : Handler B S → Handler B S
    unfolding with_reader respond
    gzip next r s =
        if r.header "Content-Encoding" == "gzip"
        then with_reader (codec.new_reader r.body) next r s
        else respond next r s

    compressed-state : (x : List (Op B) × S) → (compressed x).1 ≡ x.1
    unfolding compressed
    compressed-state (ops, s) = refl

    respond-state :
        (next : Handler B S) (r : Request B) (s : S) → (respond next r s).1 ≡ (next r s).1
    unfolding respond
    respond-state next r s =
        if_elim (λ (x : List (Op B) × S). x.1 ≡ (next r s).1)
          (codec.contains (r.header "Accept-Encoding") "gzip") (compressed-state (next r s)) refl

    -- A compressed request is passed on with the body that the decompressor gives: the state is as the
    -- next handler leaves it.
    pub gzip-state :
        (next : Handler B S) (r : Request B) (body : Result B) (s : S)
        → codec.new_reader r.body ≡ ok body
        → r.header "Content-Encoding" ≡ "gzip"
        → (gzip next r s).1 ≡ (next (record r { body = body }) s).1
    unfolding gzip with_reader
    gzip-state next r body s n h = rw (h, n, respond-state next (record r { body = body }) s)
