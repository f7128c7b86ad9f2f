-- ===== src/Idt/Handlers.antt =====
-- student-distrib/idt.c: the handlers of the exceptions. Each prints and then loops for ever; a
-- definition gives what it leaves then. The handlers of the interrupts only save registers around a
-- call of `rtc_interrupt`, `schedule` and `keyboard_handler`.
use linux_based_os.Prelude.{ℕ, Option, some, none, ◌>>=◌}
use linux_based_os.Strings.{Str, text}
use linux_based_os.Screen.{Screen}
use linux_based_os.Printf.{printf}
use linux_based_os.Execute.{Kernel}
use linux_based_os.Idt.{
  Handler, ex_de, ex_db, ex_nmi, ex_bp, ex_of, ex_br, ex_ud, ex_nm, ex_df, ex_mf, ex_ts, ex_np,
  ex_ss, ex_gp, ex_pf, ex_ma, ex_ac, ex_mc, ex_xf, ex_reserved, page_handler, handle_rtc_interrupt,
  handle_pit_interrupt, handle_keyboard_interrupt, system_calls_linkage,
}

-- `#error` of each `HANDLER`: the string constant with its quotation marks.
unfoldable pub message : Handler → Option Str
message ex_de = some (text "\"Divide Error\"")
message ex_db = some (text "\"Debug\"")
message ex_nmi = some (text "\"Not Maskable Interrupt\"")
message ex_bp = some (text "\"Breakpoint\"")
message ex_of = some (text "\"Overflow\"")
message ex_br = some (text "\"BOUND Range Exceeded\"")
message ex_ud = some (text "\"Invalid/Undefined Opcode\"")
message ex_nm = some (text "\"Device Not Available (No Math coprocessor)\"")
message ex_df = some (text "\"Double Fault\"")
message ex_mf = some (text "\"CoProcessor Segment Overrun\"")
message ex_ts = some (text "\"Invalid TSS\"")
message ex_np = some (text "\"Segment Not Present\"")
message ex_ss = some (text "\"Stack Segment Fault\"")
message ex_gp = some (text "\"General Protection!\"")
message ex_pf = some (text "\"Page Fault\"")
message ex_ma = some (text "\"Floating-Point Error (Math Fault)\"")
message ex_ac = some (text "\"Alignment Check\"")
message ex_mc = some (text "\"Machine Check\"")
message ex_xf = some (text "\"SIMD Floating-Point Exception\"")
message ex_reserved = some (text "\"Reserved!\"")
message page_handler = none
message handle_rtc_interrupt = none
message handle_pit_interrupt = none
message handle_keyboard_interrupt = none
message system_calls_linkage = none

-- `printf` with one word behind the format, which may be an address of `s`; `conv_buf` is what stood in
-- its buffer.
abbrev print_word :
    ℕ
    → (active_terminal : ℕ) → (format : Str) → (word : ℕ) → (s conv_buf : Str) → Screen
    → Option Screen
print_word fuel active_terminal format word s conv_buf screen = do
  (_, printed) ← printf fuel active_terminal format (λ _. word) (λ _. s) conv_buf screen
  some printed

-- `HANDLER`: the screen on which the handler of an exception loops; `literal` is the address of its
-- message.
unfoldable pub exception :
    ℕ → (active_terminal literal : ℕ) → (conv_buf : Str) → Handler → Screen → Option Screen
unfolding message
exception fuel active_terminal literal conv_buf h screen = do
  s ← message h
  print_word fuel active_terminal (text "%s\n") literal s conv_buf screen

-- The page fault, with the address of `cr2` and the error code from the stack: the screen, and the flag
-- that is set before the loop.
unfoldable pub page_fault :
    ℕ
    → (active_terminal page_fault_addr errorcode : ℕ) → (conv_buf conv_buf' : Str) → Screen
    → Kernel
    → Option (Screen × Kernel)
page_fault fuel active_terminal page_fault_addr errorcode conv_buf conv_buf' screen k = do
  s ←
      print_word fuel active_terminal (text "Page fault address %x\n") page_fault_addr (λ _. 0)
        conv_buf screen
  s' ← print_word fuel active_terminal (text "ERROR 0x%x\n") errorcode (λ _. 0) conv_buf' s
  some (s', record k { exception_halt = 1 })
