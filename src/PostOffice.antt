-- ===== src/PostOffice.antt =====
-- The post office of nachos-3.4/code/network/post.cc and post.h, with the lists of
-- nachos-3.4/code/threads/synchlist.cc. `Lock` and `Condition` of synch.cc are empty, but for the ASSERT(FALSE)
-- of `Wait`; the waits of the post office's semaphores are with the threads.
pub mod Delivery
mod Tests
use n4ch0s.Base.{
  ℕ, ◌+◌, ◌-◌, ◌>>=◌, ◌>>◌, assert, if◌then◌else◌, Bool, true, false, not, Option, none, some, List,
  [], ◌∷◌, ◌++◌, ltb, leb, take, drop, length, get_elem?, set, replicate, ◌&&◌,
}
use n4ch0s.Base.Int.{ℤ, pos, negsuc}
use n4ch0s.Interrupt.{Interrupt}
use n4ch0s.SortedList.{Element, append, sorted_remove, is_empty}
use n4ch0s.FileSys.Image.{put_int, get_int, put_word, get_word}
use n4ch0s.Devices.Network
use n4ch0s.Devices.Network.{Network, PacketHeader, max_packet_size}

abbrev pub mail_header_size : ℕ
mail_header_size = 12

-- `MaxPacketSize - sizeof(MailHeader)`.
abbrev pub max_mail_size : ℕ
max_mail_size = 40

pub record MailHeader : Type 0 where
  pub to : ℤ
  pub from : ℤ
  pub length : ℕ

abbrev pub put_mail_header : MailHeader → List ℕ
put_mail_header h = put_int h.to ++ (put_int h.from ++ put_word h.length)

unfoldable pub get_mail_header : List ℕ → MailHeader
get_mail_header bytes = record {
  to = get_int bytes;
  from = get_int (drop 4 bytes);
  length = get_word (drop 8 bytes);
}

pub record Mail : Type 0 where
  pub pkt_hdr : PacketHeader
  pub mail_hdr : MailHeader
  pub bytes : List ℕ

pub record PostOffice : Type 0 where
  pub net_addr : ℤ
  pub boxes : List (List (Element Mail))

-- The constructor: `nBoxes` empty boxes.
abbrev pub init : (addr : ℤ) → (boxes : ℕ) → PostOffice
init addr boxes = record { net_addr = addr; boxes = replicate boxes [] }

-- `SynchList::Append`, and `SynchList::Remove`, whose wait on an empty list is the ASSERT(FALSE).
abbrev pub synch_append : {A : Type 0} → List (Element A) → A → List (Element A)
synch_append list x = append list x

abbrev pub synch_remove : {A : Type 0} → List (Element A) → Option (A × List (Element A))
synch_remove list =
    assert (not (is_empty list)) >> (sorted_remove list >>= λ (e, rest). some (e.item, rest))

-- The constructor of a mail.
unfoldable pub new_mail : PacketHeader → MailHeader → (msg : List ℕ) → Option Mail
new_mail pkt_hdr mail_hdr msg =
    assert (leb mail_hdr.length max_mail_size)
    >> some (record { pkt_hdr = pkt_hdr; mail_hdr = mail_hdr; bytes = take mail_hdr.length msg })

-- `boxes[i]`; `none` is an index outside the boxes.
abbrev pub box_at : PostOffice → ℤ → Option (ℕ × List (Element Mail))
box_at po (negsuc n) = none
box_at po (pos i) = get_elem? po.boxes i >>= λ box. some (i, box)

-- `MailBox::Put`.
unfoldable pub put :
    List (Element Mail) → PacketHeader → MailHeader → List ℕ → Option (List (Element Mail))
put box pkt_hdr mail_hdr msg =
    new_mail pkt_hdr mail_hdr msg >>= λ mail. some (synch_append box mail)

-- `MailBox::Get`: the headers and what is copied to the caller.
unfoldable pub get :
    List (Element Mail) → Option (PacketHeader × MailHeader × List ℕ × List (Element Mail))
get box = synch_remove box >>= λ (mail, rest).
    some (mail.pkt_hdr, mail.mail_hdr, take mail.mail_hdr.length mail.bytes, rest)

-- A round of `PostalDelivery` after a packet has become available. Behind a packet that is shorter than a
-- header the buffer holds zeros here.
unfoldable pub deliver : PostOffice → Network → Option (PostOffice × Network)
deliver po net =
    let (pkt_hdr, buffer, net') = Network.receive net in
    let mail_hdr = get_mail_header buffer in
    box_at po mail_hdr.to >>= λ (i, box).
    assert (leb mail_hdr.length max_mail_size)
    >> (put box pkt_hdr mail_hdr (drop mail_header_size buffer) >>= λ box'.
        some (record po { boxes = set po.boxes i box' }, net'))

-- `Send`: what goes into the socket; `fresh` is the rest of its buffer, and `wire` that of the network's.
unfoldable pub send :
    PostOffice
    → Network
    → Interrupt
    → PacketHeader
    → MailHeader
    → (msg : List ℕ) → (works : Bool) → (fresh wire : List ℕ) → Option (Interrupt × Option (List ℕ))
send po net s pkt_hdr mail_hdr msg works fresh wire =
    assert (leb mail_hdr.length max_mail_size)
    >> (box_at po mail_hdr.to >>= λ (i, box).
        let pkt : PacketHeader = record pkt_hdr {
          from = po.net_addr;
          length = mail_hdr.length + mail_header_size;
        } in
        let buffer =
          put_mail_header mail_hdr
          ++ (take mail_hdr.length msg ++ drop (mail_header_size + mail_hdr.length) fresh) in
        Network.send net s pkt buffer works wire)

-- `Receive`.
unfoldable pub receive :
    PostOffice → (box : ℤ) → Option (PacketHeader × MailHeader × List ℕ × PostOffice)
receive po box = box_at po box >>= λ (i, messages).
    get messages >>= λ (pkt_hdr, mail_hdr, bytes, rest).
    assert (leb mail_hdr.length max_mail_size)
    >> some (pkt_hdr, mail_hdr, bytes, record po { boxes = set po.boxes i rest })
