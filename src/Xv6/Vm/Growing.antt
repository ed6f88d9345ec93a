-- ===== src/Xv6/Vm/Growing.antt =====
-- growproc of proc.c with a negative argument.
