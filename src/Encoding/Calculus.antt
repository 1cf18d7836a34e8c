-- ===== src/Encoding/Calculus.antt =====
-- How reads and writes compose. `Reads m bs a`: where the bytes `bs` lie ahead, `m` succeeds with
-- `a` and moves just behind them. `Writes m bs`: where there is room, `m` succeeds and stores `bs`.
use muc_opcua.Common.{
  ℕ, ◌+◌, ◌≤◌, ◌≡◌, refl, sym, ap, ap₂, ◌∙◌, List, [], ◌++◌, Option, none, some, arith, length,
  length-append, overwrite, overwrite-append, Holds, Holds-append_left, Holds-append_right,
}
use muc_opcua.Status.{good}
use muc_opcua.Encoding.State.{done, M, ◌>>=◌, ◌>>◌, pure}
use muc_opcua.Encoding.Reader.{Reader, advance, contents, ensure_bytes, fetch}
use muc_opcua.Encoding.Writer.{Writer, emit, store, ensure_space, put}

abbrev pub Reads : {A : Type 0} → M Reader A → List ℕ → A → Type 0
Reads m bs a =
    (buf : List ℕ) (r : Reader)
    → r.buffer ≡ some buf
    → r.status ≡ good
    → r.position + length bs ≤ r.length
    → Holds buf r.position bs
    → m r ≡ done a (advance (length bs) r)

abbrev pub Writes : M Writer (Unit {0}) → List ℕ → Type 0
Writes m bs =
    (buf : List ℕ) (w : Writer)
    → w.buffer ≡ some buf
    → w.status ≡ good
    → w.position + length bs ≤ w.length
    → m w ≡ done tt (emit bs w)

pub Reads-pure : {A : Type 0} (a : A) → Reads (pure a) [] a
Reads-pure a buf r eb es fits h = ap (λ (p : ℕ). done a (record r { position = p })) (omega arith)

store_nil : (o : Option (List ℕ)) (p : ℕ) → store o p [] ≡ o
unfolding overwrite
store_nil none p = refl
store_nil (some buf) p = refl

pub Writes-pure : Writes (pure tt) []
Writes-pure buf w eb es fits =
    ap₂ (λ o (p : ℕ). done tt (record w { buffer = o; position = p }))
      (sym (store_nil w.buffer w.position)) (omega arith)

pub Reads-bind :
    {A B : Type 0} (m : M Reader A) (f : A → M Reader B) (bs cs : List ℕ) (a : A) (b : B)
    → Reads m bs a
    → Reads (f a) cs b
    → Reads (m >>= f) (bs ++ cs) b
Reads-bind m f bs cs a b hm hf buf r eb es fits h =
    let len : length (bs ++ cs) ≡ length bs + length cs = length-append bs cs in
    rw (hm buf r eb es (omega arith) (Holds-append_left buf r.position bs cs h), ◌>>=◌)
      (hf buf (advance (length bs) r) eb es (omega arith)
          (Holds-append_right buf r.position (r.position + length bs) bs cs refl h)
        ∙ ap (λ (p : ℕ). done b (record r { position = p })) (omega arith))

-- `m` reads `bs`, and the rest reads nothing more.
pub Reads-map :
    {A B : Type 0} (m : M Reader A) (f : A → B) (bs : List ℕ) (a : A)
    → Reads m bs a
    → Reads (m >>= λ x. pure (f x)) bs (f a)
Reads-map m f bs a hm buf r eb es fits h = rw (hm buf r eb es fits h, ◌>>=◌)

store-append :
    (o : Option (List ℕ)) (p : ℕ) (bs cs : List ℕ)
    → store (store o p bs) (p + length bs) cs ≡ store o p (bs ++ cs)
store-append none p bs cs = refl
store-append (some buf) p bs cs = ap some (overwrite-append buf p (p + length bs) bs cs refl)

pub emit-append : (bs cs : List ℕ) (w : Writer) → emit cs (emit bs w) ≡ emit (bs ++ cs) w
emit-append bs cs w =
    ap₂ (λ o (p : ℕ). record w { buffer = o; position = p })
      (store-append w.buffer w.position bs cs) (omega (arith, length-append bs cs))

pub Writes-bind :
    (m k : M Writer (Unit {0})) (bs cs : List ℕ)
    → Writes m bs
    → Writes k cs
    → Writes (m >> k) (bs ++ cs)
Writes-bind m k bs cs hm hk buf w eb es fits =
    let len : length (bs ++ cs) ≡ length bs + length cs = length-append bs cs in
    rw (hm buf w eb es (omega arith), ◌>>=◌)
      (hk (overwrite buf w.position bs) (emit bs w) (ap (λ o. store o w.position bs) eb) es
          (omega arith)
        ∙ ap (done tt) (emit-append bs cs w))

-- The reads and writes of one word.
pub ensure_bytes_lem :
    (n : ℕ) (buf : List ℕ) (r : Reader)
    → r.buffer ≡ some buf
    → r.status ≡ good
    → r.position + n ≤ r.length
    → ensure_bytes n r ≡ done tt r
unfolding ensure_bytes
ensure_bytes_lem n buf r eb es fits = ground arith

pub ensure_space_lem :
    (n : ℕ) (buf : List ℕ) (w : Writer)
    → w.buffer ≡ some buf
    → w.status ≡ good
    → w.position + n ≤ w.length
    → ensure_space n w ≡ done tt w
unfolding ensure_space
ensure_space_lem n buf w eb es fits = ground arith

pub Reads-word :
    (get : List ℕ → ℕ → ℕ) (bs : List ℕ) (v : ℕ)
    → ((buf : List ℕ) (p : ℕ) → Holds buf p bs → get buf p ≡ v)
    → Reads (ensure_bytes (length bs) >> fetch get (length bs)) bs v
Reads-word get bs v hget buf r eb es fits h =
    rw (ensure_bytes_lem (length bs) buf r eb es fits, ◌>>=◌)
      (ap (λ x. done x (advance (length bs) r))
        (ap (λ o. get (contents o) r.position) eb ∙ hget buf r.position h))

pub Writes-word : (n : ℕ) (bs : List ℕ) → n ≡ length bs → Writes (ensure_space n >> put bs) bs
Writes-word n bs e buf w eb es fits = rw (ensure_space_lem n buf w eb es (omega arith), ◌>>=◌)
