-- ===== src/PostOffice/Delivery.antt =====
-- A message of nachos-3.4/code/network/post.cc on its way: `Send`, the wire, `PostalDelivery` and `Receive`.
use mathlib.Core.List.{append-nil}
use n4ch0s.Base.{
  ℕ, ◌+◌, ◌-◌, true, false, some, List, [], ◌∷◌, ◌++◌, take, drop, length, get_elem?, set, sym, ◌∙◌,
  ◌^◌, ◌<◌, ◌≤◌, ◌≡◌, zero, suc, ap, arith, ==_self, refl, length-append, leb, lt→ltb,
}
use n4ch0s.Base.Int.{ℤ, pos, negsuc}
use n4ch0s.Interrupt.{Interrupt, schedule, IntType, network_send_int, network_recv_int}
use n4ch0s.SortedList.{Element, append}
use n4ch0s.FileSys.Image.Laws.{IsInt, get_int-put_int, get_word-put_word, take-append}
use n4ch0s.FileSys.OpenFile.Buffer.{length-take}
use n4ch0s.Devices.Network
use n4ch0s.Devices.Network.{
  Network, PacketHeader, put_packet_header, get_packet_header, same_int, check_pkt_avail,
}
use n4ch0s.PostOffice
use n4ch0s.PostOffice.{
  PostOffice, MailHeader, Mail, put_mail_header, get_mail_header, send, deliver, receive,
}

take_past :
    (xs ys : List ℕ) (m : ℕ) → length xs ≤ m → take m (xs ++ ys) ≡ xs ++ take (m - length xs) ys
take_past [] ys m h = ap (λ k. take k ys) (omega arith)
take_past (x ∷ xs) ys zero h = absurd (omega arith)
take_past (x ∷ xs) ys (suc m) h =
    let e : m - length xs ≡ suc m - suc (length xs) = omega arith in
    ap (λ l. x ∷ l) (take_past xs ys m (omega arith) ∙ ap (λ k. xs ++ take k ys) e)

take_all : (xs : List ℕ) (n : ℕ) → length xs ≡ n → take n xs ≡ xs
take_all xs n h = ap (λ l. take n l) (sym (append-nil xs)) ∙ take-append xs [] n h

same_int_refl : (n : ℤ) → same_int n n ≡ true
same_int_refl (pos n) = ==_self n
same_int_refl (negsuc n) = ==_self n

get_packet_header_lem :
    (h : PacketHeader) (rest : List ℕ)
    → IsInt h.to
    → IsInt h.from
    → h.length < 2 ^ 32
    → get_packet_header (put_packet_header h ++ rest) ≡ h
unfolding get_packet_header
get_packet_header_lem h rest p q r =
    let t = get_int-put_int h.to [] p in
    let f = get_int-put_int h.from [] q in
    let l = get_word-put_word h.length [] r in λ i. record { to = t i; from = f i; length = l i }

get_mail_header_lem :
    (h : MailHeader) (rest : List ℕ)
    → IsInt h.to
    → IsInt h.from
    → h.length < 2 ^ 32
    → get_mail_header (put_mail_header h ++ rest) ≡ h
unfolding get_mail_header
get_mail_header_lem h rest p q r =
    let t = get_int-put_int h.to [] p in
    let f = get_int-put_int h.from [] q in
    let l = get_word-put_word h.length [] r in λ i. record { to = t i; from = f i; length = l i }

-- The payload of a packet: the header of the mail and the message.
payload :
    (h : MailHeader) (msg rest : List ℕ)
    → h.length ≤ length msg
    → take (h.length + 12) (put_mail_header h ++ (take h.length msg ++ rest))
      ≡ put_mail_header h ++ take h.length msg
payload h msg rest l =
    let n : h.length + 12 - 12 ≡ h.length = omega arith in
    take_past (put_mail_header h) (take h.length msg ++ rest) (h.length + 12) (omega arith)
    ∙ ap (λ k. put_mail_header h ++ take k (take h.length msg ++ rest)) n
    ∙ ap (λ x. put_mail_header h ++ x)
        (take-append (take h.length msg) rest h.length (length-take h.length msg l))

-- What a network device puts on the wire.
abbrev on_wire : PacketHeader → List ℕ → List ℕ → List ℕ
on_wire h bytes fresh = put_packet_header h ++ (take h.length bytes ++ drop (12 + h.length) fresh)

schedule_soon :
    (s : Interrupt) (handler arg : ℕ) (kind : IntType)
    → (s' : Interrupt) × (schedule s handler arg 100 kind ≡ some s')
unfolding schedule
schedule_soon s handler arg kind = (_, refl)

network_sends :
    (a : Network) (s : Interrupt) (h : PacketHeader) (bytes fresh : List ℕ)
    → 0 < h.length
    → h.length ≤ 52
    → a.send_busy ≡ false
    → h.from ≡ a.ident
    → (s' : Interrupt) × (Network.send a s h bytes true fresh
        ≡ some (s', some (on_wire h bytes fresh)))
unfolding Network.send
network_sends a s h bytes fresh low high idle own =
    let (s', e) = schedule_soon s a.send_done_handler a.this network_send_int in
    let fine : same_int h.from a.ident ≡ true = rw own (same_int_refl a.ident) in
    let short : leb h.length 52 ≡ true = ground arith in
    (s', rw (idle, lt→ltb 0 h.length low, short, fine, e) refl)

network_reads :
    (b : Network) (t : Interrupt) (h : PacketHeader) (bytes fresh : List ℕ)
    → IsInt h.to
    → IsInt h.from
    → h.length ≤ 52
    → h.length ≤ length bytes
    → b.in_hdr.length ≡ 0
    → h.to ≡ b.ident
    → (t' : Interrupt) × (b' : Network) × (check_pkt_avail b t (some (on_wire h bytes fresh))
        ≡ some (b', t', true))
      × (b'.in_hdr ≡ h)
      × (b'.inbox ≡ take h.length bytes)
unfolding check_pkt_avail Network.take_packet
network_reads b t h bytes fresh p q high l empty here =
    let payload = take h.length bytes in
    let rest = drop (12 + h.length) fresh in
    let (t', e) = schedule_soon t b.read_poll b.this network_recv_int in
    let g = get_packet_header_lem h (payload ++ rest) p q (omega arith) in
    let c = take-append payload rest h.length (length-take h.length bytes l) in
    let mine : same_int h.to b.ident ≡ true = rw here (same_int_refl b.ident) in
    let short : leb h.length 52 ≡ true = ground arith in
    (
      t',
      record b { in_hdr = h; inbox = payload; packets_recvd = b.packets_recvd + 1 },
      rw (e, empty, g, mine, short, c) refl,
      refl,
      refl,
    )

-- The mail that the post office `po` sends.
abbrev pub mail_of : PostOffice → PacketHeader → MailHeader → List ℕ → Mail
mail_of po pkt mail msg = record {
  pkt_hdr = record pkt { from = po.net_addr; length = mail.length + 12 };
  mail_hdr = mail;
  bytes = take mail.length msg;
}

pub record Delivered (po po' : PostOffice) (net net' : Network) (s s' : Interrupt)
    (pkt : PacketHeader) (mail : MailHeader) (msg fresh rest : List ℕ) (i : ℕ)
    (box : List (Element Mail)) : Type 0 where
  pub wire : List ℕ
  pub sent : Interrupt
  pub polled : Interrupt
  pub filled : Network
  pub emptied : Network
  pub sends : send po net s pkt mail msg true fresh rest ≡ some (sent, some wire)
  pub polls : check_pkt_avail net' s' (some wire) ≡ some (filled, polled, true)
  pub delivers :
      deliver po' filled
      ≡ some
          (record po' { boxes = set po'.boxes i (append box (mail_of po pkt mail msg)) }, emptied)

-- A message of at most `MaxMailSize` bytes for a box that both post offices have, with numbers of boxes and
-- machines that are ints, that the network does not lose. The network of the sender is not busy sending and
-- bears the address of its post office; that of the receiver bears the address in the header and holds no packet
-- that has not been received. Then the sender puts a packet on the wire, the device of the receiver takes it and
-- calls its handler, and the postal worker puts the mail with the headers and the bytes as they were sent at the
-- end of the box.
pub send-Delivered :
    (po po' : PostOffice) (net net' : Network) (s s' : Interrupt) (pkt : PacketHeader) (i : ℕ)
    (reply : ℤ) (len : ℕ) (msg fresh rest : List ℕ) (mine box : List (Element Mail))
    → get_elem? po.boxes i ≡ some mine
    → get_elem? po'.boxes i ≡ some box
    → len ≤ 40
    → len ≤ length msg
    → i < 2 ^ 31
    → IsInt reply
    → IsInt pkt.to
    → IsInt po.net_addr
    → net.ident ≡ po.net_addr
    → net.send_busy ≡ false
    → net'.ident ≡ pkt.to
    → net'.in_hdr.length ≡ 0
    → Delivered po po' net net' s s' pkt
        (record { to = pos i; from = reply; length = len })
        msg
        fresh
        rest
        i
        box
unfolding send deliver PostOffice.put PostOffice.new_mail Network.receive
send-Delivered po po' net net' s s' pkt i reply len msg fresh rest mine box b b' short full small
      int to_int addr own idle here empty =
    let mail : MailHeader = record { to = pos i; from = reply; length = len } in
    let hdr : PacketHeader = record pkt { from = po.net_addr; length = mail.length + 12 } in
    let tail = drop (12 + mail.length) fresh in
    let buffer = put_mail_header mail ++ (take mail.length msg ++ tail) in
    let fits : mail.length + 12 ≤ length buffer =
      omega (arith, length-append (take mail.length msg) tail, length-take mail.length msg full) in
    let (s1, e1) = network_sends net s hdr buffer rest (omega arith) (omega arith) idle (sym own) in
    let (s2, net1, e2, h2, i2) =
      network_reads net' s' hdr buffer rest to_int addr (omega arith) fits empty (sym here) in
    let leq : leb mail.length 40 ≡ true = ground arith in
    let inside : net1.inbox ≡ put_mail_header mail ++ take mail.length msg =
      i2 ∙ payload mail msg tail full in
    let head : get_mail_header (put_mail_header mail ++ take mail.length msg) ≡ mail =
      get_mail_header_lem mail (take mail.length msg) small int (omega arith) in
    let whole : take (mail.length + 12) (put_mail_header mail ++ take mail.length msg)
        ≡ put_mail_header mail ++ take mail.length msg =
      take_all (put_mail_header mail ++ take mail.length msg) (mail.length + 12)
        (omega (arith, length-take mail.length msg full)) in
    let exact : take mail.length (take mail.length msg) ≡ take mail.length msg =
      take_all (take mail.length msg) mail.length (length-take mail.length msg full) in
    record {
      wire = on_wire hdr buffer rest;
      sent = s1;
      polled = s2;
      filled = net1;
      emptied = record net1 { in_hdr = record net1.in_hdr { length = 0 } };
      sends = rw (leq, b) e1;
      polls = e2;
      delivers = rw (h2, inside, whole, head, b', leq, exact) refl;
    }
